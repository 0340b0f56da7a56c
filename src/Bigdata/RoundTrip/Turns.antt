-- ===== src/Bigdata/RoundTrip/Turns.antt =====
-- The turns of the loop of valueDB over the blocks that Store wrote.
use hivekit.Common.{
  ℕ, zero, suc, ◌+◌, ◌-◌, ◌*◌, ◌%◌, ◌≤◌, ◌<◌, ◌≡◌, refl, sym, ap, ◌∙◌, subst, arith, true, false,
  List, [], ◌∷◌, ◌++◌, Option, none, some, length, take, Outcome, ok, err, ◌>>=◌, leb,
  if◌then◌else◌, length-take, length-append,
}
use hivekit.Common.Bytes.{Bytes, slice, overwrite}
use hivekit.Format.Consts.{Error, not_found}
use hivekit.Format.Align.{align8}
use hivekit.Bigdata.Reader.{read_blocks, trim_padding, cut_to}
use hivekit.Bigdata.Reader.Blocks.{
  IsReadable, cut-trim_whole, cut-trim_last, cut-trim_lossy, take-all,
}
use hivekit.Bigdata.Writer.Need.{block_len, BlocksOf}
use hivekit.Bigdata.RoundTrip.Written.{
  IsPadded, overwrite-IsPadded, block, length-block, HoldBlocks,
}

take-nil : (n : ℕ) → [] ≡ take {A = ℕ} n []
take-nil zero = refl
take-nil (suc n) = refl

take-slice : (a k : ℕ) (b : Bytes) → take a b ++ slice k a b ≡ take (a + k) b
unfolding slice
take-slice zero k b = ap (λ n. take n b) (omega arith)
take-slice (suc a) zero [] = take-nil (suc a + 0)
take-slice (suc a) (suc k) [] = take-nil (suc a + suc k)
take-slice (suc a) k (x ∷ b) =
    let e : suc a + k ≡ suc (a + k) = omega arith in rw e (ap (λ t. x ∷ t) (take-slice a k b))

-- The length of the last of `n` blocks.
abbrev pub last_len : ℕ → ℕ → ℕ
last_len n total = total - (n - 1) * 16344

-- What the reader keeps of a stored block.
module _ (b out : Bytes) (available : ℕ) (padded : IsPadded b out) where
  of_padded :
      (P : Bytes → Type 0)
      → ((pad : Bytes) → length (b ++ pad) + 4 ≡ align8 (length b + 4) → P (b ++ pad))
      → P out
  of_padded P h =
      let (pad, e, sized) = padded in
      subst P (sym e) (h pad (ap (λ o. length o + 4) (sym e) ∙ sized))

  whole_kept :
      length b % 8 ≡ 0
      → 0 < length b
      → length b ≤ available
      → cut_to available (trim_padding out) ≡ b
  whole_kept whole positive fits =
      of_padded (λ o. cut_to available (trim_padding o) ≡ b)
        (λ pad sized. cut-trim_whole b pad sized available whole positive fits)

  last_kept :
      IsReadable (length b)
      → 0 < length b
      → available ≡ length b
      → cut_to available (trim_padding out) ≡ b
  last_kept readable positive last =
      of_padded (λ o. cut_to available (trim_padding o) ≡ b)
        (λ pad sized. cut-trim_last b pad sized available readable positive last)

  last_lossy :
      4 < length b
      → 4 ≤ (length b + 3) % 8
      → length (cut_to available (trim_padding out)) < length b
  last_lossy long rest =
      of_padded (λ o. length (cut_to available (trim_padding o)) < length b)
        (λ pad sized. cut-trim_lossy b pad sized available long rest)

abbrev found : Option Bytes → Outcome Error Bytes
found none = err not_found
found (some b) = ok b

module _ (payload : ℕ → Option Bytes) where
  -- The payloads as the reader sees them.
  abbrev pub cells_of : ℕ → Outcome Error Bytes
  cells_of ref = found (payload ref)

  pub cells_of-some : (ref : ℕ) (b : Bytes) → payload ref ≡ some b → cells_of ref ≡ ok b
  cells_of-some ref b h = ap found h

  module _ (src : Bytes) where
    abbrev so_far : ℕ → Bytes
    so_far i = take (i * 16344) src

    length-so_far : (i : ℕ) → i * 16344 ≤ length src → length (so_far i) ≡ i * 16344
    length-so_far i h = omega (arith, length-take (i * 16344) src)

    -- One turn of the loop, with what it keeps of its block.
    read_blocks-turn :
        (ref : ℕ) (refs : List ℕ) (i : ℕ) (out kept : Bytes)
        → payload ref ≡ some out
        → cut_to (length src - length (so_far i)) (trim_padding out) ≡ kept
        → read_blocks cells_of (ref ∷ refs) (length src) (so_far i) ≡ (
            if leb (length src) (length (so_far i ++ kept))
            then ok (so_far i ++ kept)
            else read_blocks cells_of refs (length src) (so_far i ++ kept))
    unfolding read_blocks
    read_blocks-turn ref refs i out kept here cut =
        let continue : Bytes → Outcome Error Bytes = λ k.
          (if leb (length src) (length (so_far i ++ k))
            then ok (so_far i ++ k)
            else read_blocks cells_of refs (length src) (so_far i ++ k)) in
        let next : Bytes → Outcome Error Bytes =
          λ b. continue (cut_to (length src - length (so_far i)) (trim_padding b)) in
        ap (λ r. r >>= next) (cells_of-some ref out here) ∙ ap continue cut

    -- The last block, in both ways.
    pub last_turn :
        (i ref : ℕ) (out : Bytes)
        → BlocksOf (i + 1) (length src)
        → payload ref ≡ some out
        → IsPadded (block i src) out
        → IsReadable (last_len (i + 1) (length src))
        → 0 < length src
        → read_blocks cells_of (ref ∷ []) (length src) (so_far i) ≡ ok src
    last_turn i ref out b here padded readable positive =
        let len : length (block i src) ≡ block_len i (length src) =
          length-block i src (omega arith) in
        let left : length (block i src) ≡ last_len (i + 1) (length src) = omega (arith, len) in
        let cut =
          last_kept (block i src) out (length src - length (so_far i)) padded
            (subst IsReadable (sym left) readable) (omega (arith, left))
            (omega (arith, left, length-so_far i (omega arith))) in
        let whole : so_far i ++ block i src ≡ src =
          take-slice (i * 16344) (block_len i (length src)) src
          ∙ take-all (i * 16344 + block_len i (length src)) src (omega arith) in
        let done : leb (length src) (length (so_far i ++ block i src)) ≡ true =
          ap (λ t. leb (length src) (length t)) whole ∙ ground arith in
        read_blocks-turn ref [] i out (block i src) here cut ∙ rw (done, whole) refl

    pub last_turn_lossy :
        (i ref : ℕ) (out : Bytes)
        → BlocksOf (i + 1) (length src)
        → payload ref ≡ some out
        → IsPadded (block i src) out
        → 4 < last_len (i + 1) (length src)
        → 4 ≤ (last_len (i + 1) (length src) + 3) % 8
        → (r : Bytes) × (read_blocks cells_of (ref ∷ []) (length src) (so_far i) ≡ ok r)
          × (length r < length src)
    unfolding read_blocks
    last_turn_lossy i ref out b here padded long rest =
        let len : length (block i src) ≡ block_len i (length src) =
          length-block i src (omega arith) in
        let left : length (block i src) ≡ last_len (i + 1) (length src) = omega (arith, len) in
        let kept : Bytes = cut_to (length src - length (so_far i)) (trim_padding out) in
        let less : length kept < length (block i src) =
          last_lossy (block i src) out (length src - length (so_far i)) padded (omega (arith, left))
            (omega (arith, left)) in
        let short : length (so_far i ++ kept) < length src =
          omega (arith, less, left, length-append (so_far i) kept, length-so_far i (omega arith)) in
        let more : leb (length src) (length (so_far i ++ kept)) ≡ false = ground (arith, short) in
        (so_far i ++ kept, read_blocks-turn ref [] i out kept here refl ∙ rw more refl, short)

    -- Before it.
    whole_turn :
        (i ref : ℕ) (refs : List ℕ) (out : Bytes)
        → (i + 1) * 16344 < length src
        → payload ref ≡ some out
        → IsPadded (block i src) out
        → read_blocks cells_of (ref ∷ refs) (length src) (so_far i)
          ≡ read_blocks cells_of refs (length src) (so_far (i + 1))
    whole_turn i ref refs out more here padded =
        let len : length (block i src) ≡ 16344 = omega (arith, length-block i src (omega arith)) in
        let cut =
          whole_kept (block i src) out (length src - length (so_far i)) padded (omega (arith, len))
            (omega (arith, len)) (omega (arith, len, length-so_far i (omega arith))) in
        let next : so_far i ++ block i src ≡ so_far (i + 1) =
          take-slice (i * 16344) (block_len i (length src)) src
          ∙ ap (λ n. take n src) (omega arith) in
        let t : leb (length src) (length (so_far (i + 1))) ≡ false =
          ground (arith, length-so_far (i + 1) (omega arith)) in
        read_blocks-turn ref refs i out (block i src) here cut ∙ rw (next, t) refl

    pub last_turn-any :
        (refs : List ℕ) (i : ℕ)
        → HoldBlocks payload refs i src
        → (n : ℕ) × (length refs ≡ suc n)
        → BlocksOf (i + length refs) (length src)
        → (ref : ℕ) × (j : ℕ) × (out : Bytes) × (j + 1 ≡ i + length refs)
          × (payload ref ≡ some out)
          × IsPadded (block j src) out
          × (read_blocks cells_of refs (length src) (so_far i)
              ≡ read_blocks cells_of (ref ∷ []) (length src) (so_far j))
    last_turn-any [] i hold (n, e) b = absurd (omega (arith, e))
    last_turn-any (ref ∷ []) i ((buf, here, sized), h) e b = (
      ref,
      i,
      overwrite (block i src) buf,
      refl,
      here,
      overwrite-IsPadded (block i src) buf sized,
      refl,
    )
    last_turn-any (ref ∷ ref2 ∷ refs) i ((buf, here, sized), h) e b =
        let (r, j, o, at_end, there, p, same) =
          last_turn-any (ref2 ∷ refs) (i + 1) h (length refs, refl) (omega arith, omega arith) in
        (
          r,
          j,
          o,
          omega (arith, at_end),
          there,
          p,
          whole_turn i ref (ref2 ∷ refs) (overwrite (block i src) buf) (omega arith) here
                (overwrite-IsPadded (block i src) buf sized)
              ∙ same,
        )
