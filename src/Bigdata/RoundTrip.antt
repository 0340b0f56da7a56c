-- ===== src/Bigdata/RoundTrip.antt =====
-- What the writers of hive/bigdata/writer.go leave in cells against valueDB of
-- internal/reader/reader.go.
pub mod Written
pub mod Turns
use hivekit.Common.{
  ℕ, zero, suc, ◌+◌, ◌-◌, ◌*◌, ◌/◌, ◌%◌, ◌^◌, ◌≤◌, ◌<◌, ◌≡◌, refl, sym, ap, ap₂, ◌∙◌, subst, arith,
  Bool, true, false, List, [], ◌∷◌, ◌++◌, Option, none, some, length, take, drop, Outcome, ok, err,
  ◌>>=◌, ok-inj, ltb, leb, ◌==◌, ==_self, if◌then◌else◌, length-take, length-append,
}
use hivekit.Common.Bytes.{Bytes, slice}
use hivekit.Format.Stores.{result}
use hivekit.Format.Consts.{Error, not_found, size_mismatch}
use hivekit.Format.Align.{align8}
use hivekit.Bigdata.{max_block_size, decode_db, write_blocklist, write_db_header, blocklist_stores}
use hivekit.Bigdata.Reader.{block_offsets, read_blocks, value_db, trim_padding, cut_to}
use hivekit.Bigdata.Reader.Blocks.{
  block_offsets-written, IsReadable, cut-trim_whole, cut-trim_last, cut-trim_lossy, take-all,
}
use hivekit.Bigdata.Writer.Need.{block_len, BlocksOf}
use hivekit.Bigdata.Headers.{write_blocklist-returns, header_round_trip}
use hivekit.Bigdata.RoundTrip.Written.{HoldBlocks, HoldsValue}
use hivekit.Bigdata.RoundTrip.Turns.{
  last_len, cells_of, cells_of-some, last_turn, last_turn_lossy, last_turn-any,
}

module _ (payload : ℕ → Option Bytes) where
  module _ (src : Bytes) where
    abbrev reads_all : List ℕ → Outcome Error Bytes
    reads_all refs = read_blocks (cells_of payload) refs (length src) []

    read_blocks-all :
        (refs : List ℕ)
        → HoldBlocks payload refs 0 src
        → BlocksOf (length refs) (length src)
        → 0 < length src
        → IsReadable (last_len (length refs) (length src))
        → reads_all refs ≡ ok src
    read_blocks-all refs hold b positive readable =
        let some_refs : (n : ℕ) × (length refs ≡ suc n) = (length refs - 1, omega arith) in
        let (ref, j, out, at_end, here, padded, same) =
          last_turn-any payload src refs 0 hold some_refs (omega arith, omega arith) in
        let n : j + 1 ≡ length refs = omega (arith, at_end) in
        same
        ∙ last_turn payload src j ref out (omega (arith, n), omega (arith, n)) here padded
            (subst (λ k. IsReadable (last_len k (length src))) (sym n) readable) positive

    read_blocks-lossy :
        (refs : List ℕ)
        → HoldBlocks payload refs 0 src
        → BlocksOf (length refs) (length src)
        → 4 < last_len (length refs) (length src)
        → 4 ≤ (last_len (length refs) (length src) + 3) % 8
        → (r : Bytes) × (reads_all refs ≡ ok r) × (length r < length src)
    read_blocks-lossy refs hold b long rest =
        let some_refs : (n : ℕ) × (length refs ≡ suc n) = (length refs - 1, omega arith) in
        let (ref, j, out, at_end, here, padded, same) =
          last_turn-any payload src refs 0 hold some_refs (omega arith, omega arith) in
        let n : last_len (j + 1) (length src) ≡ last_len (length refs) (length src) =
          ap (λ k. last_len k (length src)) (omega (arith, at_end)) in
        let (r, e, short) =
          last_turn_lossy payload src j ref out (omega (arith, at_end), omega (arith, at_end)) here
            padded (omega (arith, n)) (omega (arith, n)) in
        (r, same ∙ e, short)

  -- What the reader does behind the header.
  finished : Bytes → Bool → Bytes → Outcome Error Bytes
  finished src tolerant read =
      if length read == length src then ok read else if tolerant then ok read else err size_mismatch

  module _ (n : ℕ) (src header : Bytes) (few : n ≤ 65535)
      (x : HoldsValue payload n src header) where
    listed : block_offsets n 0 x.list_out ≡ ok x.refs
    listed =
        let written =
          write_blocklist-returns x.list_buf x.refs (omega (arith, x.count, x.list_room)) in
        let out : result (blocklist_stores 0 x.refs) x.list_buf ≡ x.list_out =
          ok-inj _ _ (sym written ∙ x.list_written) in
        ap₂ (λ k o. block_offsets k 0 o) (sym x.count) (sym out)
        ∙ block_offsets-written x.refs 0 x.list_buf (omega (arith, x.count, x.list_room))
            x.refs_small

    decoded :
        decode_db header
        ≡ ok (record { num_blocks = n; blocklist_offset = x.blocklist_ref; unknown1 = 0 })
    decoded =
        let (out, e, read, dec, is, parsed) =
          header_round_trip x.header_buf n x.blocklist_ref x.header_room (omega arith)
            x.blocklist_small in
        ap decode_db (ok-inj _ _ (sym x.header_written ∙ e)) ∙ dec

    value_db-of_blocks :
        (tolerant : Bool) (r : Bytes)
        → reads_all src x.refs ≡ ok r
        → value_db (cells_of payload) tolerant header (length src) ≡ finished src tolerant r
    unfolding value_db finished
    value_db-of_blocks tolerant r h =
        let list = cells_of-some payload x.blocklist_ref x.list_out x.list_here in
        rw (decoded, list, listed, h) refl

  -- Where cells hold a value of one to 65,535 blocks as the writers fill them, the blocks copied into
  -- cells of their size rounded up, the list by writeBlocklist and the header by writeDBHeader,
  -- valueDB, tolerant or not, gives back the bytes of the value, when the last block has up to four
  -- bytes or leaves a remainder of 0, 5, 6 or 7 by eight.
  pub value_db-written :
      (n : ℕ) (src header : Bytes)
      → BlocksOf n (length src)
      → 0 < length src
      → n ≤ 65535
      → HoldsValue payload n src header
      → IsReadable (last_len n (length src))
      → (tolerant : Bool) → value_db (cells_of payload) tolerant header (length src) ≡ ok src
  unfolding finished
  value_db-written n src header b positive few x readable tolerant =
      let all =
        read_blocks-all src x.refs x.blocks (subst (λ k. BlocksOf k (length src)) (sym x.count) b)
          positive (subst (λ k. IsReadable (last_len k (length src))) (sym x.count) readable) in
      let same : (length src == length src) ≡ true = ==_self (length src) in
      value_db-of_blocks n src header few x tolerant src all ∙ rw same refl

  -- Where cells hold a value of one to 65,535 blocks as the writers fill them, and the last block has
  -- more than four bytes and leaves a remainder of 1, 2, 3 or 4 by eight, the strict valueDB refuses
  -- the value with a size mismatch, and the tolerant one gives fewer bytes than the value has.
  pub value_db-written_lossy :
      (n : ℕ) (src header : Bytes)
      → BlocksOf n (length src)
      → n ≤ 65535
      → HoldsValue payload n src header
      → 4 < last_len n (length src)
      → 4 ≤ (last_len n (length src) + 3) % 8
      → (value_db (cells_of payload) false header (length src) ≡ err size_mismatch)
        × ((r : Bytes) × (value_db (cells_of payload) true header (length src) ≡ ok r)
            × (length r < length src))
  unfolding finished
  value_db-written_lossy n src header b few x long rest =
      let last : last_len (length x.refs) (length src) ≡ last_len n (length src) =
        ap (λ k. last_len k (length src)) x.count in
      let (r, all, short) =
        read_blocks-lossy src x.refs x.blocks (subst (λ k. BlocksOf k (length src)) (sym x.count) b)
          (omega (arith, last)) (omega (arith, last)) in
      let differs : (length r == length src) ≡ false = ground (arith, short) in
      (
        value_db-of_blocks n src header few x false r all ∙ rw differs refl,
        (r, value_db-of_blocks n src header few x true r all ∙ rw differs refl, short),
      )
