-- ===== src/Buf/Exact.antt =====
-- The overflow-safe operations of internal/buf against exact integer arithmetic.
use hivekit.Common.{
  ℕ, suc, ◌+◌, ◌-◌, ◌*◌, ◌/◌, ◌^◌, ◌≤◌, ◌<◌, length, ◌≡◌, ◌↔◌, true, ◌&&◌, none, some,
  if◌then◌else◌, ok, arith,
}
use hivekit.Common.Int.{
  ℤ, pos, negsuc, pos_part, ◌+ℤ◌, ◌-ℤ◌, ◌*ℤ◌, leb_ℤ, ◌≤ℤ◌, quot_ℤ, fits_int, wrap_int,
}
use hivekit.Common.Bytes.{Bytes, slice}
use hivekit.Buf.{add_overflow_safe, mul_overflow_safe, check_list_bounds, checked_slice}

-- `AddOverflowSafe` returns the exact sum of two ints when an int holds it, and refuses else.
pub add_overflow_safe-exact :
    (a b : ℤ)
    → fits_int a ≡ true
    → fits_int b ≡ true
    → add_overflow_safe a b ≡ (if fits_int (a +ℤ b) then some (a +ℤ b) else none)
unfolding add_overflow_safe ◌+ℤ◌ ◌-ℤ◌ wrap_int
add_overflow_safe-exact (pos a) (pos b) ha hb = ground arith
add_overflow_safe-exact (pos a) (negsuc b) ha hb = ground arith
add_overflow_safe-exact (negsuc a) (pos b) ha hb = ground arith
add_overflow_safe-exact (negsuc a) (negsuc b) ha hb = ground arith

-- a > m / b, in multiplied form.
div-lt_iff : (m a b : ℕ) → 0 < b → (m / b < a) ↔ (m < a * b)
div-lt_iff m a b h = (λ p. grind arith, λ p. grind arith)

-- `MulOverflowSafe` returns the exact product of two ints when an int holds it, and refuses else.
pub mul_overflow_safe-exact :
    (a b : ℤ)
    → fits_int a ≡ true
    → fits_int b ≡ true
    → mul_overflow_safe a b ≡ (if fits_int (a *ℤ b) then some (a *ℤ b) else none)
unfolding mul_overflow_safe ◌*ℤ◌ wrap_int quot_ℤ
mul_overflow_safe-exact (pos a) (pos b) ha hb = ground (arith, div-lt_iff (2 ^ 63 - 1) a b)
mul_overflow_safe-exact (pos a) (negsuc b) ha hb = ground (arith, div-lt_iff (2 ^ 63) (suc b) a)
mul_overflow_safe-exact (negsuc a) (pos b) ha hb = ground (arith, div-lt_iff (2 ^ 63) (suc a) b)
mul_overflow_safe-exact (negsuc a) (negsuc b) ha hb =
    ground (arith, div-lt_iff (2 ^ 63 - 1) (suc a) (suc b))

-- On a list that fits the buffer `CheckListBounds` returns its end, and nothing else is accepted.
check_list_bounds_nonneg :
    (n o c s : ℕ)
    → n < 2 ^ 63
    → o < 2 ^ 63
    → c < 2 ^ 63
    → s < 2 ^ 63
    → (end : ℤ)
    → (check_list_bounds (pos n) (pos o) (pos c) (pos s) ≡ ok end)
      ↔ ((end ≡ pos (o + c * s)) × (o + c * s ≤ n))
unfolding check_list_bounds ◌*ℤ◌ ◌+ℤ◌
check_list_bounds_nonneg n o c s hn ho hc hs end = ground (
  arith,
  mul_overflow_safe-exact (pos c) (pos s) (ground arith) (ground arith),
  add_overflow_safe-exact (pos o) (pos (c * s)) (ground arith),
)

-- For any int arguments and a buffer length, `CheckListBounds` accepts exactly when none of the
-- three is negative and the list of `count` elements at `offset` ends inside the buffer; what it
-- returns is that end, in exact arithmetic.
check_list_bounds-ok_iff :
    (n : ℕ) (offset count size : ℤ) (end : ℤ)
    → n < 2 ^ 63
    → fits_int offset ≡ true
    → fits_int count ≡ true
    → fits_int size ≡ true
    → (check_list_bounds (pos n) offset count size ≡ ok end) ↔ (
        (pos 0 ≤ℤ offset)
        × (pos 0 ≤ℤ count)
        × (pos 0 ≤ℤ size)
        × (end ≡ offset +ℤ count *ℤ size)
        × (end ≤ℤ pos n))
unfolding check_list_bounds ◌*ℤ◌ ◌+ℤ◌
check_list_bounds-ok_iff n (pos o) (pos c) (pos s) end hn ho hc hs =
    let e = check_list_bounds_nonneg n o c s hn (ground arith) (ground arith) (ground arith) end in
    ground (arith, e)
check_list_bounds-ok_iff n (negsuc o) c s end hn ho hc hs = ground arith
check_list_bounds-ok_iff n (pos o) (negsuc c) s end hn ho hc hs = ground arith
check_list_bounds-ok_iff n (pos o) (pos c) (negsuc s) end hn ho hc hs = ground arith

-- On a buffer below 2^63 bytes and two ints `Slice` gives the bytes from `off` to `off + n` exactly
-- when they lie inside the buffer.
checked_slice-exact :
    (b : Bytes) (off n : ℤ)
    → length b < 2 ^ 63
    → fits_int off ≡ true
    → fits_int n ≡ true
    → checked_slice b off n ≡ (
        if leb_ℤ (pos 0) off && leb_ℤ (pos 0) n && leb_ℤ (off +ℤ n) (pos (length b))
        then some (slice (pos_part n) (pos_part off) b)
        else none)
unfolding checked_slice ◌+ℤ◌
checked_slice-exact b (pos o) (pos n) hb ho hn =
    ground (arith, add_overflow_safe-exact (pos o) (pos n))
checked_slice-exact b (negsuc o) n hb ho hn = ground arith
checked_slice-exact b (pos o) (negsuc n) hb ho hn = ground arith
