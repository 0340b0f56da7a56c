-- ===== src/Bigdata.antt =====
-- hive/bigdata/db.go, hive/db.go and internal/format/db.go: the header of a big-data value and the
-- list of its blocks.
pub mod Headers
pub mod Reader
pub mod Writer
pub mod RoundTrip
use hivekit.Common.{
  ℕ, zero, suc, ◌+◌, ◌*◌, ◌/◌, ◌<◌, List, [], ◌∷◌, Bool, not, ◌&&◌, ◌||◌, length, Outcome, ok, err,
  panic, ◌>>=◌, ◌>>◌, refuse, ltb, leb, ◌==◌, if◌then◌else◌,
}
use hivekit.Common.Bytes.{Bytes, peek}
use hivekit.Common.Int.{ℤ, pos, negsuc}
use hivekit.Format.Consts.{
  Error, truncated, signature_mismatch, sanity_limit, invalid_signature, db_truncated,
  db_invalid_signature, bad_block_count, list_too_small, db_header_size, db_min_block_count,
  db_max_block_count,
}
use hivekit.Format.Encoding.{checked_read_u16, checked_read_u32}
use hivekit.Format.Stores.{Store, byte, u16, u32, run}

abbrev pub max_block_size : ℕ
max_block_size = 16344

-- A DBHeader.
pub record DbHeader : Type 0 where
  pub signature : ℕ × ℕ
  pub count : ℕ
  pub blocklist : ℕ
  pub reserved : ℕ

abbrev pub header_stores : ℕ → ℕ → List Store
header_stores count blocklist_ref =
    byte 0 b'd' ∷ byte 1 b'b' ∷ u16 2 count ∷ u32 4 blocklist_ref ∷ u32 8 0 ∷ []

unfoldable pub write_db_header : Bytes → ℕ → ℕ → Outcome Error Bytes
write_db_header buf count blocklist_ref = do
  refuse (ltb (length buf) db_header_size) db_truncated
  run (header_stores count blocklist_ref) buf

-- `if err != nil { return nil, ErrTruncated }`
abbrev or_truncated : {A : Type 0} → Outcome Error A → Outcome Error A
or_truncated (ok value) = ok value
or_truncated (err problem) = err db_truncated
or_truncated panic = panic

abbrev pub has_db_signature : Bytes → Bool
has_db_signature b = (peek 1 b 0 == b'd') && (peek 1 b 1 == b'b')

pub read_db_header : Bytes → Outcome Error DbHeader
read_db_header buf = do
  refuse (ltb (length buf) db_header_size) db_truncated
  refuse (not (has_db_signature buf)) db_invalid_signature
  count ← or_truncated (checked_read_u16 buf (pos 2))
  refuse (ltb db_max_block_count count) sanity_limit
  blocklist ← or_truncated (checked_read_u32 buf (pos 4))
  reserved ← or_truncated (checked_read_u32 buf (pos 8))
  ok (record {
    signature = (peek 1 buf 0, peek 1 buf 1);
    count = count;
    blocklist = blocklist;
    reserved = reserved;
  })

-- The loop of WriteBlocklist, from block `i` on.
abbrev pub blocklist_stores : ℕ → List ℕ → List Store
blocklist_stores i [] = []
blocklist_stores i (ref ∷ refs) = u32 (i * 4) ref ∷ blocklist_stores (i + 1) refs

unfoldable pub write_blocklist : Bytes → List ℕ → Outcome Error Bytes
write_blocklist buf block_refs = do
  refuse (ltb (length buf) (length block_refs * 4)) db_truncated
  run (blocklist_stores 0 block_refs) buf

-- The loop of ReadBlocklist, from block `i` on: a failing read ends it with what there is.
pub read_refs : ℕ → ℕ → Bytes → Outcome Error (List ℕ)
read_refs zero i buf = ok []
read_refs (suc n) i buf =
    let rest = read_refs n (i + 1) buf in
    elim (checked_read_u32 buf (pos (i * 4))) [
      | ok ref ↦ do refs ← rest; ok (ref ∷ refs)
      | err problem ↦ ok []
      | panic ↦ panic
    ]

pub read_blocklist : Bytes → ℕ → Outcome Error (List ℕ)
unfolding read_refs
read_blocklist buf count = do
  refuse (ltb db_max_block_count count) sanity_limit
  refuse (ltb (length buf) (count * 4)) db_truncated
  read_refs count 0 buf

-- A DBRecord of the format package.
pub record DbRecord : Type 0 where
  pub num_blocks : ℕ
  pub blocklist_offset : ℕ
  pub unknown1 : ℕ

pub decode_db : Bytes → Outcome Error DbRecord
decode_db b = do
  refuse (ltb (length b) db_header_size) truncated
  refuse (not (has_db_signature b)) signature_mismatch
  ok (record { num_blocks = peek 2 b 2; blocklist_offset = peek 4 b 4; unknown1 = peek 4 b 8 })

pub is_db_record : Bytes → Bool
is_db_record b = leb 2 (length b) && has_db_signature b

-- hive.ParseDB: a view of the payload, with the accessors below.
pub parse_db : Bytes → Outcome Error Bytes
parse_db payload = do
  refuse (ltb (length payload) db_header_size) truncated
  refuse (not (has_db_signature payload)) invalid_signature
  refuse (ltb (peek 2 payload 2) db_min_block_count) bad_block_count
  ok payload

db_count : Bytes → ℕ
db_count buf = peek 2 buf 2

db_blocklist_offset : Bytes → ℕ
db_blocklist_offset buf = peek 4 buf 4

abbrev db_unknown : Bytes → ℕ
db_unknown buf = peek 4 buf 8

-- DBList.ValidateCount, Len and At.
abbrev validate_count : Bytes → ℤ → Outcome Error (Unit {0})
validate_count buf (negsuc n) = err bad_block_count
validate_count buf (pos n) = refuse (ltb (length buf) (n * 4)) list_too_small

abbrev db_list_len : Bytes → ℕ
db_list_len buf = length buf / 4

-- The index is that of an entry: not negative.
db_list_at : Bytes → ℕ → Outcome Error ℕ
db_list_at buf i = if ltb (length buf) (i * 4 + 4) then err truncated else ok (peek 4 buf (i * 4))
