-- ===== src/Common/Points.antt =====
-- Buffers byte by byte: what stands at a place after a write, and equality from equality everywhere.
use hivekit.Common.Tests.{ltb, leb, if◌then◌else◌}
use hivekit.Common.Lists.{length, take, drop, get_elem?}
use hivekit.Common.Bytes.{Bytes, overwrite, poke, slice}
use Prim.Native.Nat.{ℕ, zero, suc, ◌+◌, ◌-◌}
use mathlib.Core.Path.{◌≡◌, refl, ap, ap₂}
use mathlib.Core.Bool.{false, ◌&&◌}
use mathlib.Core.Option.{none}
use mathlib.Core.List.{[], ◌∷◌}
use native.Mathlib.Omega.{arith}

get_elem?-overwrite :
    (ws b : Bytes) (x : ℕ)
    → get_elem? (overwrite ws b) x
      ≡ (if ltb x (length ws) && ltb x (length b) then get_elem? ws x else get_elem? b x)
get_elem?-overwrite [] b x = ground arith
get_elem?-overwrite (w ∷ ws) [] x = ground arith
get_elem?-overwrite (w ∷ ws) (y ∷ b) zero = ground arith
get_elem?-overwrite (w ∷ ws) (y ∷ b) (suc x) = ground (arith, get_elem?-overwrite ws b x)

pub get_elem?-poke :
    (ws : Bytes) (i : ℕ) (b : Bytes) (x : ℕ)
    → get_elem? (poke ws i b) x ≡ (
        if (leb i x && ltb x (i + length ws)) && ltb x (length b)
        then get_elem? ws (x - i)
        else get_elem? b x)
get_elem?-poke ws zero b x = ground (arith, get_elem?-overwrite ws b x)
get_elem?-poke ws (suc i) [] x = ground arith
get_elem?-poke ws (suc i) (y ∷ b) zero = ground arith
get_elem?-poke ws (suc i) (y ∷ b) (suc x) = ground (arith, get_elem?-poke ws i b x)

get_elem?-take :
    (n : ℕ) (b : Bytes) (y : ℕ) → get_elem? (take n b) y ≡ (if ltb y n then get_elem? b y else none)
get_elem?-take zero b y = ground arith
get_elem?-take (suc n) [] y = ground arith
get_elem?-take (suc n) (z ∷ b) zero = ground arith
get_elem?-take (suc n) (z ∷ b) (suc y) = ground (arith, get_elem?-take n b y)

get_elem?-drop : (n : ℕ) (b : Bytes) (y : ℕ) → get_elem? (drop n b) y ≡ get_elem? b (n + y)
get_elem?-drop zero b y = ap (get_elem? b) (omega arith)
get_elem?-drop (suc n) [] y = ground arith
get_elem?-drop (suc n) (z ∷ b) y =
    let e : suc n + y ≡ suc (n + y) = omega arith in rw e (get_elem?-drop n b y)

pub get_elem?-slice :
    (n off : ℕ) (b : Bytes) (y : ℕ)
    → get_elem? (slice n off b) y ≡ (if ltb y n then get_elem? b (off + y) else none)
unfolding slice
get_elem?-slice n off b y = ground (arith, get_elem?-take n (drop off b) y, get_elem?-drop off b y)

-- Buffers that agree at every place are equal.
pub buffer_ext : (a b : Bytes) → ((x : ℕ) → get_elem? a x ≡ get_elem? b x) → a ≡ b
buffer_ext [] [] h = refl
buffer_ext [] (y ∷ b) h = cc (h 0)
buffer_ext (x ∷ a) [] h = cc (h 0)
buffer_ext (x ∷ a) (y ∷ b) h =
    let head : x ≡ y = cc (h 0) in ap₂ ◌∷◌ head (buffer_ext a b (λ n. h (suc n)))

get_elem?-none_of_ge : (b : Bytes) (x : ℕ) → ltb x (length b) ≡ false → get_elem? b x ≡ none
get_elem?-none_of_ge [] x h = ground arith
get_elem?-none_of_ge (y ∷ b) zero h = ground arith
get_elem?-none_of_ge (y ∷ b) (suc x) h = get_elem?-none_of_ge b x (ground arith)
