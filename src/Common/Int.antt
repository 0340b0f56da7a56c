-- ===== src/Common/Int.antt =====
-- Signed integers over the native numbers, and Go's `int`: 64 bits, with wrap-around.
use Prim.Native.Nat.{ℕ, suc, ◌+◌, ◌-◌, ◌*◌, ◌/◌, ◌%◌, ◌^◌, ◌≤◌}
use mathlib.Core.Path.{◌≡◌}
use mathlib.Core.Bool.{Bool, true}
use native.Mathlib.Omega.{arith}
use hivekit.Common.Tests.{ltb, leb, if◌then◌else◌}

-- `negsuc n` is -(n + 1).
pub data ℤ : Type 0 where
  pos : ℕ → ℤ
  negsuc : ℕ → ℤ

abbrev pub pos_part : ℤ → ℕ
pos_part (pos n) = n
pos_part (negsuc n) = 0

abbrev neg_part : ℤ → ℕ
neg_part (pos n) = 0
neg_part (negsuc n) = suc n

-- a - b, as an integer.
abbrev sub_ℕ : ℕ → ℕ → ℤ
sub_ℕ a b = if leb b a then pos (a - b) else negsuc (b - a - 1)

infixl 65 ◌+ℤ◌ ◌-ℤ◌
infixl 70 ◌*ℤ◌
infix 50 ◌≤ℤ◌
unfoldable pub ◌+ℤ◌ : ℤ → ℤ → ℤ
a +ℤ b = sub_ℕ (pos_part a + pos_part b) (neg_part a + neg_part b)

unfoldable pub ◌-ℤ◌ : ℤ → ℤ → ℤ
a -ℤ b = sub_ℕ (pos_part a + neg_part b) (neg_part a + pos_part b)

unfoldable pub ◌*ℤ◌ : ℤ → ℤ → ℤ
a *ℤ b =
    sub_ℕ (pos_part a * pos_part b + neg_part a * neg_part b)
      (pos_part a * neg_part b + neg_part a * pos_part b)

abbrev pub ◌≤ℤ◌ : ℤ → ℤ → Type 0
a ≤ℤ b = pos_part a + neg_part b ≤ pos_part b + neg_part a

abbrev pub ltb_ℤ : ℤ → ℤ → Bool
ltb_ℤ a b = ltb (pos_part a + neg_part b) (pos_part b + neg_part a)

abbrev pub leb_ℤ : ℤ → ℤ → Bool
leb_ℤ a b = leb (pos_part a + neg_part b) (pos_part b + neg_part a)

-- Go's `/` rounds towards zero.
unfoldable pub quot_ℤ : ℤ → ℤ → ℤ
quot_ℤ (pos a) (pos b) = pos (a / b)
quot_ℤ (pos a) (negsuc b) = sub_ℕ 0 (a / suc b)
quot_ℤ (negsuc a) (pos b) = sub_ℕ 0 (suc a / b)
quot_ℤ (negsuc a) (negsuc b) = pos (suc a / suc b)

abbrev pub max_int : ℤ
max_int = pos (2 ^ 63 - 1)

abbrev pub min_int : ℤ
min_int = negsuc (2 ^ 63 - 1)

-- The integers that an `int` holds.
abbrev pub fits_int : ℤ → Bool
fits_int (pos n) = ltb n (2 ^ 63)
fits_int (negsuc n) = ltb n (2 ^ 63)

-- What two's complement makes of an integer outside that range.
unfoldable pub wrap_int : ℤ → ℤ
wrap_int (pos n) = let r = n % 2 ^ 64 in if ltb r (2 ^ 63) then pos r else negsuc (2 ^ 64 - r - 1)
wrap_int (negsuc n) =
    let r = n % 2 ^ 64 in if ltb r (2 ^ 63) then negsuc r else pos (2 ^ 64 - r - 1)

wrap_int-of_fits : (a : ℤ) → fits_int a ≡ true → wrap_int a ≡ a
unfolding wrap_int
wrap_int-of_fits (pos n) h = ground arith
wrap_int-of_fits (negsuc n) h = ground arith
