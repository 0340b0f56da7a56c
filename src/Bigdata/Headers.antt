-- ===== src/Bigdata/Headers.antt =====
-- The readers of a big-data header and of a list of blocks on what the writers wrote.
use hivekit.Common.{
  ℕ, ◌+◌, ◌*◌, ◌^◌, ◌≤◌, ◌<◌, ◌≡◌, refl, ◌∙◌, arith, true, false, List, [], ◌∷◌, length, All, ok,
  err, refuse-passes, ltb, if◌then◌else◌,
}
use hivekit.Common.Bytes.{Bytes, peek, poke, le_bytes, length-poke}
use hivekit.Format.Consts.{db_header_size, bad_block_count}
use hivekit.Format.Encoding.Laws.{peek-poke_self, checked_read_u16_in, checked_read_u32_in}
use hivekit.Format.Stores.{
  Store, Within, untouched, result, run-eq-result, peek-result, peek-result-untouched,
  length-result,
}
use hivekit.Bigdata.{
  header_stores, write_db_header, read_db_header, blocklist_stores, write_blocklist, read_refs,
  read_blocklist, decode_db, is_db_record, parse_db, has_db_signature,
}

module _ (buf : Bytes) (count blocklist_ref : ℕ) (room : 12 ≤ length buf) where
  abbrev stores : List Store
  stores = header_stores count blocklist_ref

  abbrev written_header : Bytes
  written_header = result stores buf

  inside : Within stores (length buf)
  inside = (omega arith, (omega arith, (omega arith, (omega arith, (omega arith, tt)))))

  write_db_header-returns : write_db_header buf count blocklist_ref ≡ ok written_header
  unfolding write_db_header
  write_db_header-returns =
      let t : ltb (length buf) db_header_size ≡ false = ground arith in
      refuse-passes _ _ _ t ∙ run-eq-result stores buf inside

  length-written : length written_header ≡ length buf
  length-written = length-result stores buf

  signed : has_db_signature written_header ≡ true
  signed =
      let d : peek 1 written_header 0 ≡ b'd' =
        peek-result 1 0 stores buf b'd' inside refl (omega arith) in
      let b : peek 1 written_header 1 ≡ b'b' =
        peek-result 1 1 stores buf b'b' inside refl (omega arith) in
      rw (d, b) refl

  module _ (fits : count < 2 ^ 16) (in_range : blocklist_ref < 2 ^ 32) where
    read_count : peek 2 written_header 2 ≡ count
    read_count = peek-result 2 2 stores buf count inside refl fits

    read_ref : peek 4 written_header 4 ≡ blocklist_ref
    read_ref = peek-result 4 4 stores buf blocklist_ref inside refl in_range

    read_reserved : peek 4 written_header 8 ≡ 0
    read_reserved = peek-result 4 8 stores buf 0 inside refl (omega arith)

    length-room : 12 ≤ length written_header
    length-room = omega (arith, length-written)

    read_db_header-written :
        read_db_header written_header
        ≡ ok (record {
          signature = (b'd', b'b');
          count = count;
          blocklist = blocklist_ref;
          reserved = 0;
        })
    unfolding read_db_header
    read_db_header-written =
        let c = checked_read_u16_in 2 written_header (omega arith) (omega (arith, length-room)) in
        let l = checked_read_u32_in 4 written_header (omega arith) (omega (arith, length-room)) in
        let r = checked_read_u32_in 8 written_header (omega arith) (omega (arith, length-room)) in
        ground (arith, signed, read_count, read_ref, read_reserved, length-room)

    decode_db-written :
        decode_db written_header
        ≡ ok (record { num_blocks = count; blocklist_offset = blocklist_ref; unknown1 = 0 })
    unfolding decode_db
    decode_db-written = ground (arith, signed, read_count, read_ref, read_reserved, length-room)

    parse_db-written :
        parse_db written_header ≡ (if ltb count 2 then err bad_block_count else ok written_header)
    unfolding parse_db
    parse_db-written = ground (arith, signed, read_count, length-room)

    is_db_record-written : is_db_record written_header ≡ true
    unfolding is_db_record
    is_db_record-written = ground (arith, signed, length-room)

-- The loop writes behind the references before it, and inside the payload.
refs_untouched :
    (k off i : ℕ) (refs : List ℕ)
    → off + k ≤ i * 4
    → untouched k off (blocklist_stores i refs) ≡ true
refs_untouched k off i [] h = refl
refs_untouched k off i (r ∷ refs) h =
    ground (arith, refs_untouched k off (i + 1) refs (omega arith))

refs-Within :
    (n i : ℕ) (refs : List ℕ) → (i + length refs) * 4 ≤ n → Within (blocklist_stores i refs) n
refs-Within n i [] h = tt
refs-Within n i (r ∷ refs) h = (omega arith, refs-Within n (i + 1) refs (omega arith))

abbrev pub AllU32 : List ℕ → Type 0
AllU32 refs = All (λ r. r < 2 ^ 32) refs

pub head_ref :
    (r : ℕ) (refs : List ℕ) (i : ℕ) (b : Bytes)
    → (i + 1) * 4 ≤ length b
    → r < 2 ^ 32
    → peek 4 (result (blocklist_stores i (r ∷ refs)) b) (i * 4) ≡ r
unfolding result
head_ref r refs i b h small =
    peek-result-untouched 4 (i * 4) (blocklist_stores (i + 1) refs) (poke (le_bytes 4 r) (i * 4) b)
      (refs_untouched 4 (i * 4) (i + 1) refs (omega arith))
    ∙ peek-poke_self 4 r (i * 4) b small (omega arith)

-- What the loop of the reader finds is what the loop of the writer was given.
read_refs-written :
    (refs : List ℕ) (i : ℕ) (b : Bytes)
    → (i + length refs) * 4 ≤ length b
    → length b < 2 ^ 62
    → AllU32 refs
    → read_refs (length refs) i (result (blocklist_stores i refs) b) ≡ ok refs
unfolding read_refs result
read_refs-written [] i b h small all = refl
read_refs-written (r ∷ refs) i b h small all =
    let b1 : Bytes = poke (le_bytes 4 r) (i * 4) b in
    let final : Bytes = result (blocklist_stores (i + 1) refs) b1 in
    let same : length b1 ≡ length b = length-poke (le_bytes 4 r) (i * 4) b in
    let len : length final ≡ length b = length-result (blocklist_stores (i + 1) refs) b1 ∙ same in
    let read = checked_read_u32_in (i * 4) final (omega arith) (omega (arith, len)) in
    let head : peek 4 final (i * 4) ≡ r = head_ref r refs i b (omega arith) all.0 in
    let rest =
      read_refs-written refs (i + 1) b1 (omega (arith, same)) (omega (arith, same)) all.1 in
    ground (arith, read, head, rest)

pub write_blocklist-returns :
    (buf : Bytes) (refs : List ℕ)
    → length refs * 4 ≤ length buf
    → write_blocklist buf refs ≡ ok (result (blocklist_stores 0 refs) buf)
unfolding write_blocklist
write_blocklist-returns buf refs room =
    let t : ltb (length buf) (length refs * 4) ≡ false = ground arith in
    refuse-passes _ _ _ t ∙ run-eq-result _ buf (refs-Within (length buf) 0 refs (omega arith))

read_blocklist-written :
    (buf : Bytes) (refs : List ℕ)
    → length refs ≤ 65535
    → length refs * 4 ≤ length buf
    → length buf < 2 ^ 62
    → AllU32 refs
    → read_blocklist (result (blocklist_stores 0 refs) buf) (length refs) ≡ ok refs
unfolding read_blocklist
read_blocklist-written buf refs few room small all =
    let len = length-result (blocklist_stores 0 refs) buf in
    let read = read_refs-written refs 0 buf (omega arith) small all in ground (arith, len, read)

-- In a buffer that has room for it.
blocklist_round_trip :
    (buf : Bytes) (refs : List ℕ)
    → length refs ≤ 65535
    → length refs * 4 ≤ length buf
    → length buf < 2 ^ 62
    → AllU32 refs
    → (out : Bytes) × (write_blocklist buf refs ≡ ok out)
      × (read_blocklist out (length refs) ≡ ok refs)
blocklist_round_trip buf refs few room small all = (
  result (blocklist_stores 0 refs) buf,
  write_blocklist-returns buf refs room,
  read_blocklist-written buf refs few room small all,
)

-- A big-data header that WriteDBHeader writes into a buffer of at least twelve bytes, with a uint16
-- count and a uint32 reference, is read back by ReadDBHeader and by DecodeDB, is known by
-- IsDBRecord, and is accepted by ParseDB exactly with a count of two or more.
pub header_round_trip :
    (buf : Bytes) (count blocklist_ref : ℕ)
    → 12 ≤ length buf
    → count < 2 ^ 16
    → blocklist_ref < 2 ^ 32
    → (out : Bytes) × (write_db_header buf count blocklist_ref ≡ ok out)
      × (read_db_header out
          ≡ ok (record {
            signature = (b'd', b'b');
            count = count;
            blocklist = blocklist_ref;
            reserved = 0;
          }))
      × (decode_db out
          ≡ ok (record { num_blocks = count; blocklist_offset = blocklist_ref; unknown1 = 0 }))
      × (is_db_record out ≡ true)
      × (parse_db out ≡ (if ltb count 2 then err bad_block_count else ok out))
header_round_trip buf count blocklist_ref room fits in_range = (
  written_header buf count blocklist_ref room,
  write_db_header-returns buf count blocklist_ref room,
  read_db_header-written buf count blocklist_ref room fits in_range,
  decode_db-written buf count blocklist_ref room fits in_range,
  is_db_record-written buf count blocklist_ref room fits in_range,
  parse_db-written buf count blocklist_ref room fits in_range,
)
