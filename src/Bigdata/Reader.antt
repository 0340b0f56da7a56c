-- ===== src/Bigdata/Reader.antt =====
-- internal/reader/reader.go, valueDB: the reader of a big-data value. `cell` is the reader's own
-- access to the payload of a cell by its reference.
pub mod Blocks
use hivekit.Common.{
  ℕ, zero, suc, ◌+◌, ◌-◌, ◌*◌, List, [], ◌∷◌, ◌++◌, Bool, Outcome, ok, err, panic, ◌>>=◌, length,
  take, ltb, leb, ◌==◌, if◌then◌else◌,
}
use hivekit.Common.Bytes.{Bytes, peek}
use hivekit.Format.Consts.{Error, blocklist_truncated, size_mismatch, db_block_padding}
use hivekit.Bigdata.{decode_db}

-- The loop over the list of blocks, from entry `i` on.
pub block_offsets : ℕ → ℕ → Bytes → Outcome Error (List ℕ)
block_offsets zero i list_data = ok []
block_offsets (suc n) i list_data =
    let rest = block_offsets n (i + 1) list_data in
    if ltb (length list_data) (i * 4 + 4)
    then err blocklist_truncated
    else do offsets ← rest; ok (peek 4 list_data (i * 4) ∷ offsets)

-- The block without the padding at its end, and cut to what is still expected.
abbrev pub trim_padding : Bytes → Bytes
trim_padding block =
    if ltb db_block_padding (length block)
    then take (length block - db_block_padding) block
    else block

abbrev pub cut_to : ℕ → Bytes → Bytes
cut_to available block = if ltb available (length block) then take available block else block

-- The loop over the blocks: `read` is what was copied so far.
unfoldable pub read_blocks : (ℕ → Outcome Error Bytes) → List ℕ → ℕ → Bytes → Outcome Error Bytes
read_blocks cell [] expected_len read = ok read
read_blocks cell (offset ∷ offsets) expected_len read = do
  block ← cell offset
  let read' = read ++ cut_to (expected_len - length read) (trim_padding block) in
      let rest = read_blocks cell offsets expected_len read' in
      if leb expected_len (length read') then ok read' else rest

unfoldable pub value_db : (ℕ → Outcome Error Bytes) → Bool → Bytes → ℕ → Outcome Error Bytes
unfolding block_offsets read_blocks
value_db cell tolerant db_data expected_len = do
  db ← decode_db db_data
  list_data ← cell db.blocklist_offset
  offsets ← block_offsets db.num_blocks 0 list_data
  read ← read_blocks cell offsets expected_len []
  if length read == expected_len then ok read else if tolerant then ok read else err size_mismatch
