-- ===== src/Format/Vk.antt =====
-- internal/format/vk.go: decoding a value record.
pub mod Shape
use hivekit.Common.{
  ℕ, ◌+◌, ◌-◌, ◌/◌, ◌%◌, ◌^◌, Bool, not, Option, none, some, Outcome, ok, err, ◌>>=◌, ◌>>◌, refuse,
  length, ltb, ◌==◌, if◌then◌else◌, take,
}
use hivekit.Common.Bytes.{Bytes, slice}
use hivekit.Common.Int.{ℤ, pos, ltb_ℤ, pos_part}
use hivekit.Buf.{add_overflow_safe}
use hivekit.Format.Consts.{
  Error, truncated, signature_mismatch, sanity_limit, vk_signature, vk_min_size, max_name_len,
  max_value_data_len, bytes_equal,
}
use hivekit.Format.Encoding.{checked_read_u16, checked_read_u32}

pub record VkRecord : Type 0 where
  pub name_length : ℕ
  pub data_length : ℕ
  pub data_offset : ℕ
  pub type : ℕ
  pub flags : ℕ
  pub name_raw : Bytes

-- v & VKDataLengthMask, and the test v & VKDataInlineBit != 0.
abbrev pub data_length_mask : ℕ → ℕ
data_length_mask v = v % 2 ^ 31

abbrev has_inline_bit : ℕ → Bool
has_inline_bit v = v / 2 ^ 31 % 2 == 1

-- Bit 0 of the flags is VKFlagASCIIName.
unfoldable pub name_is_ascii : VkRecord → Bool
name_is_ascii vk = vk.flags % 2 == 1

unfoldable pub data_inline : VkRecord → Bool
data_inline vk = has_inline_bit vk.data_length

unfoldable pub inline_length : VkRecord → ℕ
inline_length vk =
    if not (has_inline_bit vk.data_length) then vk.data_length else data_length_mask vk.data_length

-- The bounds check of the name, `b[base:nameEnd]` behind it.
pub name_slice : Bytes → ℕ → ℕ → Option ℤ → Outcome Error Bytes
name_slice b base name_len none = err truncated
name_slice b base name_len (some name_end) =
    if ltb_ℤ (pos (length b)) name_end
    then err truncated
    else ok (slice (pos_part name_end - base) base b)

pub decode_vk : Bytes → Outcome Error VkRecord
decode_vk b = do
  refuse (ltb (length b) vk_min_size) truncated
  refuse (not (bytes_equal (take 2 b) vk_signature)) signature_mismatch
  name_len ← checked_read_u16 b (pos 0x02)
  refuse (ltb max_name_len name_len) sanity_limit
  data_len ← checked_read_u32 b (pos 0x04)
  refuse (ltb max_value_data_len (data_length_mask data_len)) sanity_limit
  data_off ← checked_read_u32 b (pos 0x08)
  val_type ← checked_read_u32 b (pos 0x0C)
  flags ← checked_read_u16 b (pos 0x10)
  name ← name_slice b 0x14 name_len (add_overflow_safe (pos 0x14) (pos name_len))
  ok (record {
    name_length = name_len;
    data_length = data_len;
    data_offset = data_off;
    type = val_type;
    flags = flags;
    name_raw = name;
  })
