-- ===== src/Bigdata/Reader/Blocks.antt =====
-- What the reader keeps of one block, and what it makes of the writer's list of blocks.
use hivekit.Common.{
  ℕ, zero, suc, ◌+◌, ◌-◌, ◌*◌, ◌%◌, ◌≤◌, ◌<◌, ◌≡◌, refl, sym, ap, ◌∙◌, arith, List, [], ◌∷◌, ◌++◌,
  length, take, ok, ltb, if-both, ◌⊎◌, length-append, take-append_length, length-take,
}
use hivekit.Common.Bytes.{Bytes, peek, poke, le_bytes, length-poke}
use hivekit.Format.Align.{align8}
use hivekit.Format.Stores.{result, length-result}
use hivekit.Bigdata.{blocklist_stores}
use hivekit.Bigdata.Headers.{AllU32, head_ref}
use hivekit.Bigdata.Reader.{block_offsets, trim_padding, cut_to}

pub block_offsets-written :
    (refs : List ℕ) (i : ℕ) (b : Bytes)
    → (i + length refs) * 4 ≤ length b
    → AllU32 refs
    → block_offsets (length refs) i (result (blocklist_stores i refs) b) ≡ ok refs
unfolding block_offsets result
block_offsets-written [] i b h all = refl
block_offsets-written (r ∷ refs) i b h all =
    let b1 : Bytes = poke (le_bytes 4 r) (i * 4) b in
    let final : Bytes = result (blocklist_stores (i + 1) refs) b1 in
    let same : length b1 ≡ length b = length-poke (le_bytes 4 r) (i * 4) b in
    let len : length final ≡ length b = length-result (blocklist_stores (i + 1) refs) b1 ∙ same in
    let head : peek 4 final (i * 4) ≡ r = head_ref r refs i b (omega arith) all.0 in
    let rest = block_offsets-written refs (i + 1) b1 (omega (arith, same)) all.1 in
    ground (arith, len, head, rest)

-- The lengths of a last block that comes back whole.
abbrev pub IsReadable : ℕ → Type 0
IsReadable n = (n ≤ 4) ⊎ ((n + 3) % 8 ≤ 3)

pub take-all : (n : ℕ) (b : Bytes) → length b ≤ n → take n b ≡ b
take-all zero [] h = refl
take-all zero (x ∷ b) h = absurd (omega arith)
take-all (suc n) [] h = refl
take-all (suc n) (x ∷ b) h = ap (λ t. x ∷ t) (take-all n b (omega arith))

take-take : (m n : ℕ) (b : Bytes) → m ≤ n → take m (take n b) ≡ take m b
take-take zero n b h = refl
take-take (suc m) zero b h = absurd (omega arith)
take-take (suc m) (suc n) [] h = refl
take-take (suc m) (suc n) (x ∷ b) h = ap (λ t. x ∷ t) (take-take m n b (omega arith))

cut_to-eq-take : (n : ℕ) (b : Bytes) → cut_to n b ≡ take n b
cut_to-eq-take n b =
    if-both (λ c. c ≡ take n b) (ltb n (length b)) (λ h. refl)
      (λ h. sym (take-all n b (ground arith)))

module _ (src pad : Bytes) (sized : length (src ++ pad) + 4 ≡ align8 (length src + 4)) where
  -- A block of a multiple of eight bytes is read as it was stored.
  pub cut-trim_whole :
      (available : ℕ)
      → length src % 8 ≡ 0
      → 0 < length src
      → length src ≤ available
      → cut_to available (trim_padding (src ++ pad)) ≡ src
  cut-trim_whole available whole positive fits =
      let l : length (src ++ pad) ≡ length src + 4 = omega (arith, sized) in
      let n : length (src ++ pad) - 4 ≡ length src = omega (arith, l) in
      let cut : take (length (src ++ pad) - 4) (src ++ pad) ≡ src =
        ap (λ k. take k (src ++ pad)) n ∙ take-append_length src pad in
      ground (arith, l, cut)

  -- So is a last block that fills the end of its cell to within four bytes, or has up to four.
  pub cut-trim_last :
      (available : ℕ)
      → IsReadable (length src)
      → 0 < length src
      → available ≡ length src
      → cut_to available (trim_padding (src ++ pad)) ≡ src
  cut-trim_last available readable positive last =
      cut_to-eq-take available (trim_padding (src ++ pad))
      ∙ ap (λ k. take k (trim_padding (src ++ pad))) last
      ∙ take-trim
    where
      longer : (n : ℕ) → length src ≤ n → take (length src) (take n (src ++ pad)) ≡ src
      longer n h = take-take (length src) n (src ++ pad) h ∙ take-append_length src pad

      take-trim : take (length src) (trim_padding (src ++ pad)) ≡ src
      take-trim =
          if-both (λ b. take (length src) b ≡ src) (ltb 4 (length (src ++ pad)))
            (λ h. longer (length (src ++ pad) - 4) (grind (arith, sized)))
            (λ h. take-append_length src pad)

  -- Any other block loses bytes.
  pub cut-trim_lossy :
      (available : ℕ)
      → 4 < length src
      → 4 ≤ (length src + 3) % 8
      → length (cut_to available (trim_padding (src ++ pad))) < length src
  cut-trim_lossy available long rest =
      let l : length (src ++ pad) ≤ length src + 3 = omega (arith, sized) in
      let a = length-take (length (src ++ pad) - 4) (src ++ pad) in
      let b = length-take available (take (length (src ++ pad) - 4) (src ++ pad)) in
      let c = length-append src pad in ground (arith, l, a, b, c)
