-- ===== src/Merge/Cells/EntryLists.antt =====
-- What the list decoders read back from the lists that cells.go writes.
use hivekit.Common.{
  inl, ℕ, zero, suc, ◌+◌, ◌*◌, ◌%◌, ◌^◌, ◌≤◌, ◌<◌, ◌≡◌, refl, ap, ap₂, ◌∙◌, arith, true, List, [],
  ◌∷◌, map, length, take, All, ok, some,
}
use hivekit.Common.Bytes.{Bytes, peek, poke, slice, le_bytes, length-poke, peek-of_slice, le_value}
use hivekit.Format.Consts.{bytes_equal}
use hivekit.Format.Encoding.Laws.{peek-poke_self, peek-poke_apart}
use hivekit.Format.Stores.{
  peek-result-untouched, Store, written, result-append, byte, u16, Within, untouched, result,
  run-eq-result, slice-result, slice-result-untouched, length-result,
}
use hivekit.Format.Lists.{entry_count, decode_subkey_list}
use hivekit.Format.Lists.Shape.{entries_at, subkey_answer, decode_subkey_list-of_count}
use hivekit.Merge.Cells.Readback.{take_two}
use hivekit.Merge.Cells.{RawEntry, lh_entry_stores, lh_stores, write_lh_list, lh_list_payload_size}

-- The loop writes behind the entries before it, and inside the payload.
lh_untouched :
    (k off i : ℕ) (es : List RawEntry)
    → off + k ≤ 4 + i * 8
    → untouched k off (lh_entry_stores i es) ≡ true
lh_untouched k off i [] h = refl
lh_untouched k off i (e ∷ es) h = ground (arith, lh_untouched k off (i + 1) es (omega arith))

lh_entries-Within :
    (n i : ℕ) (es : List RawEntry) → 4 + (i + length es) * 8 ≤ n → Within (lh_entry_stores i es) n
lh_entries-Within n i [] h = tt
lh_entries-Within n i (e ∷ es) h =
    (omega arith, (omega arith, lh_entries-Within n (i + 1) es (omega arith)))

-- The word of the entry that the loop writes first.
lh_head :
    (e : RawEntry) (es : List RawEntry) (i : ℕ) (b : Bytes)
    → 4 + (i + 1) * 8 ≤ length b
    → e.nk_ref < 2 ^ 32
    → peek 4 (result (lh_entry_stores i (e ∷ es)) b) (4 + i * 8) ≡ e.nk_ref
unfolding result
lh_head e es i b h ref =
    let b1 = poke (le_bytes 4 e.nk_ref) (4 + i * 8) b in
    peek-result-untouched 4 (4 + i * 8) (lh_entry_stores (i + 1) es)
      (poke (le_bytes 4 e.hash) (4 + i * 8 + 4) b1)
      (lh_untouched 4 (4 + i * 8) (i + 1) es (omega arith))
    ∙ peek-poke_apart 4 4 e.hash (4 + i * 8 + 4) (4 + i * 8) b1 (inl (omega arith))
    ∙ peek-poke_self 4 e.nk_ref (4 + i * 8) b ref (omega arith)

-- The references that stand behind the loop are those of its entries.
lh_entries :
    (es : List RawEntry) (i n : ℕ) (b : Bytes)
    → n ≤ length es
    → 4 + (i + length es) * 8 ≤ length b
    → All (λ e. e.nk_ref < 2 ^ 32) es
    → entries_at 4 8 (result (lh_entry_stores i es) b) i n ≡ map (λ e. e.nk_ref) (take n es)
unfolding entries_at result
lh_entries es i zero b hn h refs = refl
lh_entries [] i (suc n) b hn h refs = absurd (omega arith)
lh_entries (e ∷ es) i (suc n) b hn h (ref, refs) =
    let b2 = poke (le_bytes 4 e.hash) (4 + i * 8 + 4) (poke (le_bytes 4 e.nk_ref) (4 + i * 8) b) in
    let same : length b2 ≡ length b =
      length-poke (le_bytes 4 e.hash) (4 + i * 8 + 4) (poke (le_bytes 4 e.nk_ref) (4 + i * 8) b)
      ∙ length-poke (le_bytes 4 e.nk_ref) (4 + i * 8) b in
    ap₂ ◌∷◌ (lh_head e es i b (omega arith) ref)
      (lh_entries es (i + 1) n b2 (omega arith) (omega (arith, same)) refs)

-- The decoder's answer on a complete LH list.
lh_answer :
    (b : Bytes) (n : ℕ)
    → take 2 b ≡ b'l' ∷ b'h' ∷ []
    → 4 + n * 8 ≤ length b
    → subkey_answer b n ≡ ok (entries_at 4 8 b 0 n)
unfolding subkey_answer bytes_equal
lh_answer b n sig h = rw sig (ground arith)

module _ (buf : Bytes) (entries : List RawEntry) (expected : ℕ)
    (room : lh_list_payload_size (length entries) ≤ length buf) (hb : length buf < 2 ^ 62)
    (hn : length entries < 2 ^ 16) (refs : All (λ e. e.nk_ref < 2 ^ 32) entries) where
  abbrev lh_written : Bytes
  lh_written = result (lh_stores entries) buf

  lh_stores-Within : Within (lh_stores entries) (length buf)
  unfolding lh_list_payload_size
  lh_stores-Within = (
    omega (arith, room),
    (
      omega (arith, room),
      (omega (arith, room), lh_entries-Within (length buf) 0 entries (omega (arith, room))),
    ),
  )

  abbrev lh_header : List Store
  lh_header = byte 0 b'l' ∷ byte 1 b'h' ∷ u16 2 (length entries % 2 ^ 16) ∷ []

  -- The header is in front of the entries, and stays.
  header_slice :
      (k off : ℕ) (ws : Bytes)
      → off + k ≤ 4
      → written k off lh_header ≡ some ws
      → slice k off lh_written ≡ ws
  header_slice k off ws h w = rw (result-append lh_header (lh_entry_stores 0 entries) buf) (
      slice-result-untouched k off (lh_entry_stores 0 entries) (result lh_header buf)
        (lh_untouched k off 0 entries (omega arith))
      ∙ slice-result k off lh_header buf ws (unfold lh_list_payload_size in omega (arith, room)) w)

  lh_signature_read : take 2 lh_written ≡ b'l' ∷ b'h' ∷ []
  lh_signature_read =
      take_two b'l' b'h' lh_written (header_slice 1 0 _ (omega arith) refl)
        (header_slice 1 1 _ (omega arith) refl)

  lh_count : peek 2 lh_written 2 ≡ length entries
  lh_count =
      peek-of_slice 2 lh_written 2
      ∙ ap le_value (header_slice 2 2 _ (omega arith) refl)
      ∙ omega (arith, hn)

  lh_refs :
      (n : ℕ)
      → n ≤ length entries
      → entries_at 4 8 lh_written 0 n ≡ map (λ e. e.nk_ref) (take n entries)
  unfolding lh_list_payload_size
  lh_refs n h = rw (result-append lh_header (lh_entry_stores 0 entries) buf) (
      lh_entries entries 0 n (result lh_header buf) h
        (omega (arith, room, length-result lh_header buf)) refs)

  lh_decodes :
      decode_subkey_list lh_written expected
      ≡ ok (map (λ e. e.nk_ref) (take (entry_count (length entries) expected) entries))
  unfolding lh_list_payload_size
  lh_decodes =
      let n : ℕ = entry_count (length entries) expected in
      let n_le : n ≤ length entries = ground arith in
      decode_subkey_list-of_count lh_written expected (rw length-result hb)
        (omega (arith, lh_count, hn))
      ∙ ap (λ c. subkey_answer lh_written (entry_count c expected)) lh_count
      ∙ lh_answer lh_written n lh_signature_read
          (omega (arith, room, n_le, length-result (lh_stores entries) buf))
      ∙ ap ok (lh_refs n n_le)

  -- `WriteLHList` fills any buffer of LHListPayloadSize bytes, and `DecodeSubkeyList` gives back
  -- the references of the entries in their order, cut to a non-zero expectation below their number.
  -- There are fewer than 2^16 entries, and every reference is a uint32.
  pub write_lh_list_decodes :
      (b' : Bytes) × (write_lh_list buf entries ≡ ok b')
      × (decode_subkey_list b' expected
          ≡ ok (map (λ e. e.nk_ref) (take (entry_count (length entries) expected) entries)))
  unfolding write_lh_list
  write_lh_list_decodes =
      (lh_written, run-eq-result (lh_stores entries) buf lh_stores-Within, lh_decodes)
