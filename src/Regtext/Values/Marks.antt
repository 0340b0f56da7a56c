-- ===== src/Regtext/Values/Marks.antt =====
-- The ends of the text that a value is printed as.
use hivekit.Common.{
  ℕ, suc, ◌/◌, ◌%◌, ◌<◌, ◌≡◌, refl, sym, subst, arith, [], ◌∷◌, ◌++◌, All, true, not, ◌&&◌, leb,
  ◌==◌,
}
use hivekit.Common.Bytes.{Bytes, IsByte}
use hivekit.Common.Text.{backslash}
use hivekit.Regtext.Hex.{hex_digit, joined, format_hex}
use hivekit.Regtext.Values.{hex_fixed}

-- Marks of ASCII but the backslash, which no reader of text takes for white space.
abbrev pub IsMark : ℕ → Type 0
IsMark x = (leb 33 x && leb x 126 && not (x == backslash)) ≡ true

unfoldable pub last_byte : ℕ → Bytes → ℕ
last_byte x [] = x
last_byte x (y ∷ s) = last_byte y s

-- Text that neither begins nor ends with white space.
unfoldable pub IsSolid : Bytes → Type 0
unfolding last_byte
IsSolid [] = Unit
IsSolid (x ∷ s) = IsMark x × IsMark (last_byte x s)

pub last_byte-append : (p s : Bytes) (x y : ℕ) → last_byte x (p ++ y ∷ s) ≡ last_byte y s
unfolding last_byte
last_byte-append [] s x y = refl
last_byte-append (z ∷ p) s x y = last_byte-append p s z y

hex_digit-IsMark : (n : ℕ) → n < 16 → IsMark (hex_digit n)
unfolding hex_digit
hex_digit-IsMark n h = ground arith

joined-IsMark :
    (bytes : Bytes) (x : ℕ) → All IsByte bytes → IsMark x → IsMark (last_byte x (joined bytes))
unfolding joined last_byte
joined-IsMark [] x h m = m
joined-IsMark (b ∷ bytes) x h m =
    joined-IsMark bytes (hex_digit (b % 16)) h.1 (hex_digit-IsMark (b % 16) (omega arith))

pub format_hex-IsMark :
    (bytes : Bytes) (x : ℕ) → All IsByte bytes → IsMark (last_byte x (format_hex bytes))
unfolding format_hex last_byte
format_hex-IsMark [] x h = refl
format_hex-IsMark (b ∷ bytes) x h =
    joined-IsMark bytes (hex_digit (b % 16)) h.1 (hex_digit-IsMark (b % 16) (omega arith))

pub hex_fixed-IsMark : (k n x : ℕ) → IsMark (last_byte x (hex_fixed (suc k) n))
unfolding hex_fixed
hex_fixed-IsMark k n x =
    subst IsMark (sym (last_byte-append (hex_fixed k (n / 16)) [] x (hex_digit (n % 16))))
      (unfold last_byte in hex_digit-IsMark (n % 16) (omega arith))
