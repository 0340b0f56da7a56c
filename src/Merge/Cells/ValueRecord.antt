-- ===== src/Merge/Cells/ValueRecord.antt =====
-- What `DecodeVK` reads back from the payload that `WriteVK` writes.
use hivekit.Common.{
  All, ◌⊎◌, inl, inr, ℕ, ◌%◌, ◌^◌, ◌≤◌, ◌<◌, ◌≡◌, refl, sym, ◌∙◌, arith, List, [], ◌∷◌, length, ok,
  leb, if◌then◌else◌, take, true,
}
use hivekit.Common.Bytes.{Bytes, IsByte, overwrite, le_value, le_bytes, slice, peek}
use hivekit.Format.Consts.{max_name_len, max_value_data_len, bytes_equal, vk_signature}
use hivekit.Format.Stores.{
  peek-result, Store, result, Within, run-eq-result, slice-result, length-result,
}
use hivekit.Format.Vk.{VkRecord, decode_vk, data_inline, inline_length, name_is_ascii}
use hivekit.Format.Vk.Shape.{IsVk, vk_fields, decode_vk-ok_iff}
use hivekit.Merge.Cells.Readback.{take_two}
use hivekit.Merge.Cells.{vk_stores, write_vk, vk_payload_size, vk_length_field, vk_offset_field}

inline_bytes :
    (src : Bytes)
    → All IsByte src
    → length src ≤ 4
    → let w = overwrite src (0 ∷ 0 ∷ 0 ∷ 0 ∷ []) in
      (le_value w < 2 ^ 32) × (take (length src) (le_bytes 4 (le_value w)) ≡ src)
inline_bytes [] h le = (omega arith, refl)
inline_bytes (x ∷ []) h le = (omega arith, ground arith)
inline_bytes (x ∷ y ∷ []) h le = (omega arith, ground arith)
inline_bytes (x ∷ y ∷ z ∷ []) h le = (omega arith, ground arith)
inline_bytes (x ∷ y ∷ z ∷ u ∷ []) h le = (omega arith, ground arith)
inline_bytes (x ∷ y ∷ z ∷ u ∷ v ∷ src) h le = absurd (omega arith)

-- The data of a decoded record: its bytes, or where they are.
abbrev pub value_data : VkRecord → Bytes ⊎ ℕ
value_data r =
    if data_inline r
    then inl (take (inline_length r) (le_bytes 4 r.data_offset))
    else inr r.data_offset

module _ (buf name src : Bytes) (val_type data_ref : ℕ) (room : vk_payload_size name ≤ length buf)
    (hn : length name ≤ max_name_len) (hs : length src ≤ max_value_data_len)
    (ht : val_type < 2 ^ 32) (hr : data_ref < 2 ^ 32) (hb : All IsByte src) where
  abbrev vk_run : List Store
  vk_run = vk_stores name val_type src data_ref

  vk_stores-Within : Within vk_run (length buf)
  unfolding vk_payload_size
  vk_stores-Within = omega (arith, room)

  abbrev vk_written : Bytes
  vk_written = result vk_run buf

  vk_name_length : peek 2 vk_written 2 ≡ length name
  vk_name_length =
      peek-result 2 2 vk_run buf (length name % 2 ^ 16) vk_stores-Within refl (omega arith)
      ∙ omega (arith, hn)

  vk_data_length : peek 4 vk_written 4 ≡ vk_length_field src
  vk_data_length =
      peek-result 4 4 vk_run buf (vk_length_field src) vk_stores-Within refl (ground arith)

  vk_data_offset : peek 4 vk_written 8 ≡ vk_offset_field src data_ref
  vk_data_offset =
      peek-result 4 8 vk_run buf (vk_offset_field src data_ref) vk_stores-Within refl
        (ground (arith, inline_bytes src hb))

  vk_type : peek 4 vk_written 12 ≡ val_type
  vk_type = peek-result 4 12 vk_run buf val_type vk_stores-Within refl ht

  vk_flags : peek 2 vk_written 16 ≡ 1
  vk_flags = peek-result 2 16 vk_run buf 1 vk_stores-Within refl (omega arith)

  vk_name : slice (length name) 20 vk_written ≡ name
  vk_name = slice-result (length name) 20 vk_run buf name vk_stores-Within (ground arith)

  vk_signed : bytes_equal (take 2 vk_written) vk_signature ≡ true
  unfolding bytes_equal
  vk_signed =
      rw
        (take_two b'v' b'k' vk_written (slice-result 1 0 vk_run buf _ vk_stores-Within refl)
          (slice-result 1 1 vk_run buf _ vk_stores-Within refl))
        refl

  vk_written-IsVk : IsVk vk_written
  unfolding vk_payload_size
  vk_written-IsVk = record {
    signature = vk_signed;
    name_limit = rw vk_name_length hn;
    data_limit = rw vk_data_length (ground arith);
    fits = rw (vk_name_length, length-result) room;
  }

  vk_read_back : VkRecord
  vk_read_back = record {
    name_length = length name;
    data_length = vk_length_field src;
    data_offset = vk_offset_field src data_ref;
    type = val_type;
    flags = 1;
    name_raw = name;
  }

  vk_fields_written : vk_fields vk_written ≡ vk_read_back
  unfolding vk_read_back
  vk_fields_written =
      rw (vk_name_length, vk_data_length, vk_data_offset, vk_type, vk_flags, vk_name)

  -- `WriteVK` fills any buffer of VKPayloadSize bytes, and `DecodeVK` gives back what went in: the
  -- name, flagged as ASCII, the type, the length of the data, and the data itself where it is at
  -- most four bytes long, else the reference to it. The name and the data keep to the decoder's
  -- limits, and the type and the reference are uint32.
  pub write_vk_decodes :
      (b' : Bytes) × (r : VkRecord) × (write_vk buf name val_type src data_ref ≡ ok b')
      × (decode_vk b' ≡ ok r)
      × (r.name_raw ≡ name)
      × (name_is_ascii r ≡ true)
      × (r.type ≡ val_type)
      × (inline_length r ≡ length src)
      × (value_data r ≡ (if leb (length src) 4 then inl src else inr data_ref))
  unfolding write_vk name_is_ascii inline_length data_inline vk_read_back
  write_vk_decodes = (
    vk_written,
    vk_read_back,
    run-eq-result vk_run buf vk_stores-Within,
    (decode_vk-ok_iff vk_written vk_read_back).1.1 (vk_written-IsVk, sym vk_fields_written),
    refl,
    refl,
    refl,
    ground arith,
    ground (arith, inline_bytes src hb),
  )
