-- ===== src/Buf.antt =====
-- internal/buf: overflow-safe arithmetic on `int`, and checked slices.
pub mod Exact
use hivekit.Common.{
  ℕ, Bool, true, false, ◌&&◌, ◌||◌, Option, none, some, if◌then◌else◌, length, ◌-◌, Outcome, ok,
  err, ◌==◌,
}
use hivekit.Common.Bytes.{Bytes, slice}
use hivekit.Common.Int.{
  ℤ, pos, negsuc, pos_part, ◌+ℤ◌, ◌-ℤ◌, ◌*ℤ◌, ltb_ℤ, quot_ℤ, max_int, min_int, wrap_int,
}

-- `a + b` and `a * b` of Go's `int` wrap around.
abbrev pub add_int : ℤ → ℤ → ℤ
add_int a b = wrap_int (a +ℤ b)

abbrev pub mul_int : ℤ → ℤ → ℤ
mul_int a b = wrap_int (a *ℤ b)

abbrev pub zero_int : ℤ
zero_int = pos 0

abbrev is_zero : ℤ → Bool
is_zero (pos n) = n == 0
is_zero (negsuc n) = false

pub add_overflow_safe : ℤ → ℤ → Option ℤ
add_overflow_safe a b =
    if ltb_ℤ zero_int b && ltb_ℤ (max_int -ℤ b) a
    then none
    else if ltb_ℤ b zero_int && ltb_ℤ a (min_int -ℤ b)
    then none
    else some (add_int a b)

pub mul_overflow_safe : ℤ → ℤ → Option ℤ
mul_overflow_safe a b =
    if is_zero a || is_zero b
    then some zero_int
    else if (ltb_ℤ zero_int a && ltb_ℤ zero_int b) && ltb_ℤ (quot_ℤ max_int b) a
    then none
    else if (ltb_ℤ a zero_int && ltb_ℤ b zero_int) && ltb_ℤ a (quot_ℤ max_int b)
    then none
    else if (ltb_ℤ zero_int a && ltb_ℤ b zero_int) && ltb_ℤ b (quot_ℤ min_int a)
    then none
    else if (ltb_ℤ a zero_int && ltb_ℤ zero_int b) && ltb_ℤ a (quot_ℤ min_int b)
    then none
    else some (mul_int a b)

pub data BoundsError : Type 0 where
  negative_offset negative_count negative_size : BoundsError
  product_overflow end_overflow out_of_bounds : BoundsError

-- The checks of the two sums that follow the product.
check_end : ℤ → ℤ → Option ℤ → Outcome BoundsError ℤ
check_end buf_len offset none = err product_overflow
check_end buf_len offset (some total_size) = elim (add_overflow_safe offset total_size) [
  | none ↦ err end_overflow
  | some end_offset ↦ if ltb_ℤ buf_len end_offset then err out_of_bounds else ok end_offset
]

unfoldable pub check_list_bounds : ℤ → ℤ → ℤ → ℤ → Outcome BoundsError ℤ
unfolding check_end
check_list_bounds buf_len offset count element_size =
    if ltb_ℤ offset zero_int
    then err negative_offset
    else if ltb_ℤ count zero_int
    then err negative_count
    else if ltb_ℤ element_size zero_int
    then err negative_size
    else check_end buf_len offset (mul_overflow_safe count element_size)

-- `b[off:end]` behind the tests of `Slice`; `off` and `end` are not negative there.
slice_to : Bytes → ℤ → Option ℤ → Option Bytes
slice_to b off none = none
slice_to b off (some end) =
    if ltb_ℤ (pos (length b)) end
    then none
    else some (slice (pos_part end - pos_part off) (pos_part off) b)

pub checked_slice : Bytes → ℤ → ℤ → Option Bytes
unfolding slice_to
checked_slice b off n =
    if ltb_ℤ off zero_int || ltb_ℤ n zero_int || ltb_ℤ (pos (length b)) off
    then none
    else slice_to b off (add_overflow_safe off n)

pub has : Bytes → ℤ → ℤ → Bool
has b off n = elim (checked_slice b off n) [ none ↦ false | some _ ↦ true ]
