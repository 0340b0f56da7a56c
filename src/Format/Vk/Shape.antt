-- ===== src/Format/Vk/Shape.antt =====
-- Which buffers `DecodeVK` accepts, and what it reads from them.
use hivekit.Common.{
  ℕ, ◌+◌, ◌^◌, ◌≤◌, ◌<◌, ◌≡◌, ◌≢◌, ◌↔◌, true, arith, ok, err, panic, length, ltb, if◌then◌else◌,
  take,
}
use hivekit.Common.Bytes.{Bytes, slice, peek}
use hivekit.Common.Int.{pos, ◌+ℤ◌}
use hivekit.Buf.{add_overflow_safe}
use hivekit.Buf.Exact.{add_overflow_safe-exact}
use hivekit.Format.Consts.{bytes_equal, vk_signature, max_name_len, max_value_data_len, truncated}
use hivekit.Format.Encoding.Laws.{checked_read_u16_small, checked_read_u32_small}
use hivekit.Format.Vk.{VkRecord, decode_vk, name_slice, data_length_mask}

pub name_slice_lem :
    (b : Bytes) (base n : ℕ)
    → base < 2 ^ 16
    → n < 2 ^ 32
    → name_slice b base n (add_overflow_safe (pos base) (pos n))
      ≡ (if ltb (length b) (base + n) then err truncated else ok (slice n base b))
unfolding name_slice ◌+ℤ◌
name_slice_lem b base n hb hn = ground (arith, add_overflow_safe-exact (pos base) (pos n))

-- The description of a well-formed value record.
pub record IsVk (b : Bytes) : Type 0 where
  pub signature : bytes_equal (take 2 b) vk_signature ≡ true
  pub name_limit : peek 2 b 2 ≤ max_name_len
  pub data_limit : data_length_mask (peek 4 b 4) ≤ max_value_data_len
  pub fits : 0x14 + peek 2 b 2 ≤ length b

abbrev pub vk_fields : Bytes → VkRecord
vk_fields b = record {
  name_length = peek 2 b 2;
  data_length = peek 4 b 4;
  data_offset = peek 4 b 8;
  type = peek 4 b 12;
  flags = peek 2 b 16;
  name_raw = slice (peek 2 b 2) 20 b;
}

-- `DecodeVK` panics on no buffer. It accepts exactly the buffers with the signature, a name and a
-- data length within the limits and room for the name, and returns the fields at their offsets.
pub decode_vk-ok_iff :
    (b : Bytes) (r : VkRecord)
    → (decode_vk b ≢ panic) × ((decode_vk b ≡ ok r) ↔ (IsVk b × (r ≡ vk_fields b)))
unfolding decode_vk
decode_vk-ok_iff b r =
    simp
      (
        checked_read_u16_small 2 b (omega arith),
        checked_read_u32_small 4 b (omega arith),
        checked_read_u32_small 8 b (omega arith),
        checked_read_u32_small 12 b (omega arith),
        checked_read_u16_small 16 b (omega arith),
      )
      (ground (arith, name_slice_lem b 0x14 (peek 2 b 2)))
