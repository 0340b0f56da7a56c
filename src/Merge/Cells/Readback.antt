-- ===== src/Merge/Cells/Readback.antt =====
-- Signatures behind a run of stores.
use hivekit.Common.{ℕ, ◌≡◌, [], ◌∷◌, take}
use hivekit.Common.Bytes.{Bytes, slice}

-- Two bytes written one by one make a signature.
pub take_two :
    (x y : ℕ) (b : Bytes) → slice 1 0 b ≡ x ∷ [] → slice 1 1 b ≡ y ∷ [] → take 2 b ≡ x ∷ y ∷ []
unfolding slice
take_two x y [] p q = cc
take_two x y (u ∷ []) p q = cc
take_two x y (u ∷ v ∷ b) p q = cc
