-- ===== src/Common/Bytes.antt =====
-- Byte buffers: Go's []byte as a list of numbers below 256, and little-endian words in it.
use Prim.Native.Nat.{ℕ, zero, suc, ◌+◌, ◌*◌, ◌/◌, ◌%◌, ◌^◌, ◌≤◌, ◌<◌}
use mathlib.Core.Path.{◌≡◌, refl, ap}
use mathlib.Core.List.{List, [], ◌∷◌}
use native.Mathlib.Nat.{pow-suc}
use native.Mathlib.Omega.{arith}
use hivekit.Common.Lists.{length, take, drop, All}

abbrev pub Bytes : Type 0
Bytes = List ℕ

abbrev pub IsByte : ℕ → Type 0
IsByte x = x < 256

-- The number that bytes stand for, the lowest first.
abbrev pub le_value : Bytes → ℕ
le_value [] = 0
le_value (x ∷ xs) = x + 256 * le_value xs

-- The lowest `k` bytes of a number.
abbrev pub le_bytes : ℕ → ℕ → Bytes
le_bytes zero v = []
le_bytes (suc k) v = (v % 256) ∷ le_bytes k (v / 256)

-- b[off:off+k], cut at the end of the buffer.
unfoldable pub slice : ℕ → ℕ → Bytes → Bytes
slice k off b = take k (drop off b)

-- The word of `k` bytes at an offset.
unfoldable pub peek : ℕ → Bytes → ℕ → ℕ
unfolding slice
peek k b off = le_value (slice k off b)

-- copy(b, ws): as many bytes as both have.
abbrev pub overwrite : Bytes → Bytes → Bytes
overwrite [] b = b
overwrite (w ∷ ws) [] = []
overwrite (w ∷ ws) (x ∷ b) = w ∷ overwrite ws b

-- copy(b[off:], ws)
abbrev pub poke : Bytes → ℕ → Bytes → Bytes
poke ws zero b = overwrite ws b
poke ws (suc i) [] = []
poke ws (suc i) (x ∷ b) = x ∷ poke ws i b

pub length-le_bytes : (k v : ℕ) → length (le_bytes k v) ≡ k
length-le_bytes zero v = refl
length-le_bytes (suc k) v = ap suc (length-le_bytes k (v / 256))

pub le_value-le_bytes : (k v : ℕ) → v < 256 ^ k → le_value (le_bytes k v) ≡ v
le_value-le_bytes zero v h = omega arith
le_value-le_bytes (suc k) v h =
    omega (arith, le_value-le_bytes k (v / 256) (omega (arith, pow-suc 256 k)))

le_value-lt : (xs : Bytes) → All IsByte xs → le_value xs < 256 ^ length xs
le_value-lt [] h = omega arith
le_value-lt (x ∷ xs) h = omega (arith, le_value-lt xs h.1, pow-suc 256 (length xs))

length-overwrite : (ws b : Bytes) → length (overwrite ws b) ≡ length b
length-overwrite [] b = refl
length-overwrite (w ∷ ws) [] = refl
length-overwrite (w ∷ ws) (x ∷ b) = ap suc (length-overwrite ws b)

pub length-poke : (ws : Bytes) (i : ℕ) (b : Bytes) → length (poke ws i b) ≡ length b
length-poke ws zero b = length-overwrite ws b
length-poke ws (suc i) [] = refl
length-poke ws (suc i) (x ∷ b) = ap suc (length-poke ws i b)

take-overwrite : (ws b : Bytes) → length ws ≤ length b → take (length ws) (overwrite ws b) ≡ ws
take-overwrite [] b h = refl
take-overwrite (w ∷ ws) [] h = absurd (omega arith)
take-overwrite (w ∷ ws) (x ∷ b) h = ap (λ t. w ∷ t) (take-overwrite ws b (omega arith))

drop-overwrite : (ws b : Bytes) (j : ℕ) → length ws ≤ j → drop j (overwrite ws b) ≡ drop j b
drop-overwrite [] b j h = refl
drop-overwrite (w ∷ ws) [] j h = refl
drop-overwrite (w ∷ ws) (x ∷ b) zero h = absurd (omega arith)
drop-overwrite (w ∷ ws) (x ∷ b) (suc j) h = drop-overwrite ws b j (omega arith)

-- What was written is what is read.
pub slice-poke_self :
    (ws : Bytes) (i : ℕ) (b : Bytes)
    → i + length ws ≤ length b
    → slice (length ws) i (poke ws i b) ≡ ws
unfolding slice
slice-poke_self ws zero b h = take-overwrite ws b (omega arith)
slice-poke_self [] (suc i) [] h = refl
slice-poke_self (w ∷ ws) (suc i) [] h = absurd (omega arith)
slice-poke_self ws (suc i) (x ∷ b) h = slice-poke_self ws i b (omega arith)

-- A write in front of a slice, or behind it, leaves it alone.
pub slice-poke_below :
    (ws : Bytes) (i : ℕ) (b : Bytes) (k j : ℕ)
    → i + length ws ≤ j
    → slice k j (poke ws i b) ≡ slice k j b
unfolding slice
slice-poke_below ws zero b k j h = ap (take k) (drop-overwrite ws b j (omega arith))
slice-poke_below ws (suc i) [] k j h = refl
slice-poke_below ws (suc i) (x ∷ b) k zero h = absurd (omega arith)
slice-poke_below ws (suc i) (x ∷ b) k (suc j) h = slice-poke_below ws i b k j (omega arith)

pub slice-poke_above :
    (ws : Bytes) (i : ℕ) (b : Bytes) (k j : ℕ) → j + k ≤ i → slice k j (poke ws i b) ≡ slice k j b
unfolding slice
slice-poke_above ws zero b zero zero h = refl
slice-poke_above ws zero b (suc k) zero h = absurd (omega arith)
slice-poke_above ws zero b k (suc j) h = absurd (omega arith)
slice-poke_above ws (suc i) [] k j h = refl
slice-poke_above ws (suc i) (x ∷ b) zero zero h = refl
slice-poke_above ws (suc i) (x ∷ b) (suc k) zero h =
    ap (λ t. x ∷ t) (slice-poke_above ws i b k zero (omega arith))
slice-poke_above ws (suc i) (x ∷ b) k (suc j) h = slice-poke_above ws i b k j (omega arith)

pub length-slice : (k i : ℕ) (b : Bytes) → i + k ≤ length b → length (slice k i b) ≡ k
unfolding slice
length-slice zero zero b h = refl
length-slice (suc k) zero [] h = absurd (omega arith)
length-slice (suc k) zero (x ∷ b) h = ap suc (length-slice k zero b (omega arith))
length-slice zero (suc i) [] h = refl
length-slice (suc k) (suc i) [] h = absurd (omega arith)
length-slice k (suc i) (x ∷ b) h = length-slice k i b (omega arith)

slice-IsByte : (k i : ℕ) (b : Bytes) → All IsByte b → All IsByte (slice k i b)
unfolding slice
slice-IsByte zero zero b h = tt
slice-IsByte (suc k) zero [] h = tt
slice-IsByte (suc k) zero (x ∷ b) h = (h.0, slice-IsByte k zero b h.1)
slice-IsByte zero (suc i) [] h = tt
slice-IsByte (suc k) (suc i) [] h = tt
slice-IsByte k (suc i) (x ∷ b) h = slice-IsByte k i b h.1

-- A word through its bytes.
pub peek-of_slice : (k : ℕ) (b : Bytes) (off : ℕ) → peek k b off ≡ le_value (slice k off b)
unfolding peek
peek-of_slice k b off = refl

length-take-le : (k : ℕ) (xs : Bytes) → length (take k xs) ≤ k
length-take-le zero xs = omega arith
length-take-le (suc k) [] = omega arith
length-take-le (suc k) (x ∷ xs) = omega (arith, length-take-le k xs)

le_value-take-lt : (k : ℕ) (xs : Bytes) → All IsByte xs → le_value (take k xs) < 256 ^ k
le_value-take-lt zero xs h = omega arith
le_value-take-lt (suc k) [] h = omega (arith, le_value-take-lt k [] tt, pow-suc 256 k)
le_value-take-lt (suc k) (x ∷ xs) h = omega (arith, le_value-take-lt k xs h.1, pow-suc 256 k)

drop-IsByte : (k : ℕ) (xs : Bytes) → All IsByte xs → All IsByte (drop k xs)
drop-IsByte zero xs h = h
drop-IsByte (suc k) [] h = tt
drop-IsByte (suc k) (x ∷ xs) h = drop-IsByte k xs h.1

-- A word of `k` bytes is below 256 ^ k.
pub peek-lt : (k : ℕ) (b : Bytes) (off : ℕ) → All IsByte b → peek k b off < 256 ^ k
unfolding peek
peek-lt k b off h = le_value-take-lt k (drop off b) (drop-IsByte off b h)
