-- ===== src/Format/Nk.antt =====
-- internal/format/nk.go: decoding a key record.
pub mod Shape
use hivekit.Common.{
  ℕ, ◌+◌, ◌-◌, ◌/◌, ◌%◌, ◌^◌, Bool, not, Option, none, some, Outcome, ok, err, ◌>>=◌, ◌>>◌, refuse,
  length, ltb, ◌==◌, if◌then◌else◌, take,
}
use hivekit.Common.Bytes.{Bytes, slice}
use hivekit.Common.Int.{pos}
use hivekit.Buf.{add_overflow_safe}
use hivekit.Format.Consts.{
  Error, truncated, signature_mismatch, sanity_limit, nk_signature, nk_min_size, max_name_len,
  max_class_len, max_subkey_count, max_value_count, bytes_equal,
}
use hivekit.Format.Encoding.{checked_read_u16, checked_read_u32, checked_read_u64}
use hivekit.Format.Vk.{name_slice}

pub record NkRecord : Type 0 where
  pub flags : ℕ
  pub last_write_raw : ℕ
  pub parent_offset : ℕ
  pub subkey_count : ℕ
  pub subkey_list_offset : ℕ
  pub value_count : ℕ
  pub value_list_offset : ℕ
  pub security_offset : ℕ
  pub class_name_offset : ℕ
  pub max_name_length : ℕ
  pub max_class_length : ℕ
  pub max_value_name_length : ℕ
  pub max_value_data_length : ℕ
  pub name_length : ℕ
  pub class_length : ℕ
  pub name_raw : Bytes

-- Bit 5 of the flags is NKFlagCompressedName.
name_is_compressed : NkRecord → Bool
name_is_compressed nk = nk.flags / 32 % 2 == 1

pub decode_nk : Bytes → Outcome Error NkRecord
decode_nk b = do
  refuse (ltb (length b) nk_min_size) truncated
  refuse (not (bytes_equal (take 2 b) nk_signature)) signature_mismatch
  flags' ← checked_read_u16 b (pos 0x02)
  last_write_raw' ← checked_read_u64 b (pos 0x04)
  parent_offset' ← checked_read_u32 b (pos 0x10)
  subkey_count' ← checked_read_u32 b (pos 0x14)
  refuse (ltb max_subkey_count subkey_count') sanity_limit
  subkey_list_offset' ← checked_read_u32 b (pos 0x1C)
  value_count' ← checked_read_u32 b (pos 0x24)
  refuse (ltb max_value_count value_count') sanity_limit
  value_list_offset' ← checked_read_u32 b (pos 0x28)
  security_offset' ← checked_read_u32 b (pos 0x2C)
  class_name_offset' ← checked_read_u32 b (pos 0x30)
  max_name_length' ← checked_read_u32 b (pos 0x34)
  max_class_length' ← checked_read_u32 b (pos 0x38)
  max_value_name_length' ← checked_read_u32 b (pos 0x3C)
  max_value_data_length' ← checked_read_u32 b (pos 0x40)
  name_length' ← checked_read_u16 b (pos 0x48)
  refuse (ltb max_name_len name_length') sanity_limit
  class_length' ← checked_read_u16 b (pos 0x4A)
  refuse (ltb max_class_len class_length') sanity_limit
  name ← name_slice b 0x4C name_length' (add_overflow_safe (pos 0x4C) (pos name_length'))
  ok (record {
    flags = flags';
    last_write_raw = last_write_raw';
    parent_offset = parent_offset';
    subkey_count = subkey_count';
    subkey_list_offset = subkey_list_offset';
    value_count = value_count';
    value_list_offset = value_list_offset';
    security_offset = security_offset';
    class_name_offset = class_name_offset';
    max_name_length = max_name_length';
    max_class_length = max_class_length';
    max_value_name_length = max_value_name_length';
    max_value_data_length = max_value_data_length';
    name_length = name_length';
    class_length = class_length';
    name_raw = name;
  })
