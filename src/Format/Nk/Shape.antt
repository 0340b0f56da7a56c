-- ===== src/Format/Nk/Shape.antt =====
-- Which buffers `DecodeNK` accepts, and what it reads from them.
use hivekit.Common.{
  ◌+◌, ◌≤◌, ◌≡◌, ◌≢◌, ◌↔◌, true, arith, ok, err, panic, length, take, lt→ltb, ltb, Bool-cases, inl,
  inr, ◌<◌,
}
use hivekit.Common.Bytes.{Bytes, slice, peek}
use hivekit.Format.Consts.{
  bytes_equal, nk_signature, max_name_len, max_class_len, max_subkey_count, max_value_count,
  nk_min_size, truncated,
}
use hivekit.Format.Encoding.Laws.{checked_read_u16_in, checked_read_u32_in, checked_read_u64_in}
use hivekit.Format.Vk.Shape.{name_slice_lem}
use hivekit.Format.Nk.{NkRecord, decode_nk}

-- The description of a well-formed key record.
pub record IsNk (b : Bytes) : Type 0 where
  pub signature : bytes_equal (take 2 b) nk_signature ≡ true
  pub subkey_limit : peek 4 b 0x14 ≤ max_subkey_count
  pub value_limit : peek 4 b 0x24 ≤ max_value_count
  pub name_limit : peek 2 b 0x48 ≤ max_name_len
  pub class_limit : peek 2 b 0x4A ≤ max_class_len
  pub fits : 0x4C + peek 2 b 0x48 ≤ length b

abbrev pub nk_fields : Bytes → NkRecord
nk_fields b = record {
  flags = peek 2 b 0x02;
  last_write_raw = peek 8 b 0x04;
  parent_offset = peek 4 b 0x10;
  subkey_count = peek 4 b 0x14;
  subkey_list_offset = peek 4 b 0x1C;
  value_count = peek 4 b 0x24;
  value_list_offset = peek 4 b 0x28;
  security_offset = peek 4 b 0x2C;
  class_name_offset = peek 4 b 0x30;
  max_name_length = peek 4 b 0x34;
  max_class_length = peek 4 b 0x38;
  max_value_name_length = peek 4 b 0x3C;
  max_value_data_length = peek 4 b 0x40;
  name_length = peek 2 b 0x48;
  class_length = peek 2 b 0x4A;
  name_raw = slice (peek 2 b 0x48) 0x4C b;
}

-- Of a buffer with room for the fixed part every read returns.
decode_nk_long :
    (b : Bytes) (r : NkRecord)
    → nk_min_size ≤ length b
    → (decode_nk b ≢ panic) × ((decode_nk b ≡ ok r) ↔ (IsNk b × (r ≡ nk_fields b)))
unfolding decode_nk
decode_nk_long b r h =
    simp
      (
        checked_read_u16_in 0x02 b (omega arith) (omega arith),
        checked_read_u64_in 0x04 b (omega arith) (omega arith),
        checked_read_u32_in 0x10 b (omega arith) (omega arith),
        checked_read_u32_in 0x14 b (omega arith) (omega arith),
        checked_read_u32_in 0x1C b (omega arith) (omega arith),
        checked_read_u32_in 0x24 b (omega arith) (omega arith),
        checked_read_u32_in 0x28 b (omega arith) (omega arith),
        checked_read_u32_in 0x2C b (omega arith) (omega arith),
        checked_read_u32_in 0x30 b (omega arith) (omega arith),
        checked_read_u32_in 0x34 b (omega arith) (omega arith),
        checked_read_u32_in 0x38 b (omega arith) (omega arith),
        checked_read_u32_in 0x3C b (omega arith) (omega arith),
        checked_read_u32_in 0x40 b (omega arith) (omega arith),
        checked_read_u16_in 0x48 b (omega arith) (omega arith),
        checked_read_u16_in 0x4A b (omega arith) (omega arith),
      )
      (ground (arith, name_slice_lem b 0x4C (peek 2 b 0x48)))

decode_nk_short : (b : Bytes) → length b < nk_min_size → decode_nk b ≡ err truncated
unfolding decode_nk
decode_nk_short b h = rw (lt→ltb (length b) nk_min_size h)

-- `DecodeNK` panics on no buffer. It accepts exactly the buffers with the signature, the two counts
-- and the two lengths within their limits and room for the name, and returns the fields at their
-- offsets.
pub decode_nk-ok_iff :
    (b : Bytes) (r : NkRecord)
    → (decode_nk b ≢ panic) × ((decode_nk b ≡ ok r) ↔ (IsNk b × (r ≡ nk_fields b)))
decode_nk-ok_iff b r = elim (Bool-cases (ltb (length b) nk_min_size)) [
  | inl short ↦ rw (decode_nk_short b (ground arith)) (ground arith)
  | inr long ↦ decode_nk_long b r (ground arith)
]
