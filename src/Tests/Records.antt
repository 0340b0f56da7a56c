-- ===== src/Tests/Records.antt =====
-- The records and lists of internal/format and hive/merge/v2/write at concrete inputs.
use hivekit.Common.{ℕ, zero, suc, ◌≡◌, ◌≢◌, ◌↔◌, true, arith, List, [], ◌∷◌, ok, panic, inl}
use hivekit.Common.Bytes.{Bytes, peek}
use hivekit.Format.Consts.{invalid_offset, bytes_equal}
use hivekit.Format.Nk.{decode_nk}
use hivekit.Format.Nk.Shape.{IsNk, nk_fields, decode_nk-ok_iff}
use hivekit.Format.Vk.{VkRecord, decode_vk, name_is_ascii, inline_length}
use hivekit.Format.Lists.{decode_subkey_list}
use hivekit.Format.Lists.Shape.{entries_at, decode_subkey_list-eq}
use hivekit.Merge.Cells.{
  RawEntry, write_nk_with_counts, write_vk, write_lh_list, nk_payload_size, vk_payload_size,
  lh_list_payload_size,
}
use hivekit.Merge.Cells.KeyRecord.{write_nk_decodes}
use hivekit.Merge.Cells.ValueRecord.{value_data, write_vk_decodes}
use hivekit.Merge.Cells.EntryLists.{write_lh_list_decodes}

abbrev zero_bytes : ℕ → Bytes
zero_bytes zero = []
zero_bytes (suc n) = 0 ∷ zero_bytes n

abbrev key_name : Bytes
key_name = b'r' ∷ b'u' ∷ b'n' ∷ []

abbrev key_buffer : Bytes
key_buffer = zero_bytes 80

write_nk_decodes_example :
    (b' : Bytes) × (write_nk_with_counts key_buffer key_name 0x20 0x78 5 2 0x100 1 0x180 ≡ ok b')
    × (decode_nk b'
        ≡ ok (record {
          flags = 0x0020;
          last_write_raw = 5;
          parent_offset = 0x20;
          subkey_count = 2;
          subkey_list_offset = 0x100;
          value_count = 1;
          value_list_offset = 0x180;
          security_offset = 0x78;
          class_name_offset = invalid_offset;
          max_name_length = 0;
          max_class_length = 0;
          max_value_name_length = 0;
          max_value_data_length = 0;
          name_length = 3;
          class_length = 0;
          name_raw = key_name;
        }))
unfolding nk_payload_size
write_nk_decodes_example =
    write_nk_decodes key_buffer key_name 0x20 0x78 5 2 0x100 1 0x180 (omega arith) (omega arith)
      (omega arith) (omega arith) (omega arith) (omega arith) (omega arith) (omega arith)
      (omega arith)

abbrev value_buffer : Bytes
value_buffer = zero_bytes 24

abbrev value_bytes : Bytes
value_bytes = 1 ∷ 2 ∷ 3 ∷ []

write_vk_decodes_example :
    (b' : Bytes) × (r : VkRecord) × (write_vk value_buffer key_name 4 value_bytes invalid_offset
      ≡ ok b')
    × (decode_vk b' ≡ ok r)
    × (r.name_raw ≡ key_name)
    × (name_is_ascii r ≡ true)
    × (r.type ≡ 4)
    × (inline_length r ≡ 3)
    × (value_data r ≡ inl value_bytes)
unfolding vk_payload_size
write_vk_decodes_example =
    write_vk_decodes value_buffer key_name value_bytes 4 invalid_offset (omega arith) (omega arith)
      (omega arith) (omega arith) (omega arith) (omega arith, (omega arith, (omega arith, tt)))

abbrev two_entries : List RawEntry
two_entries = record { nk_ref = 0x20; hash = 7 } ∷ record { nk_ref = 0x88; hash = 9 } ∷ []

write_lh_list_decodes_example :
    (b' : Bytes) × (write_lh_list value_buffer two_entries ≡ ok b')
    × (decode_subkey_list b' 2 ≡ ok (0x20 ∷ 0x88 ∷ []))
unfolding lh_list_payload_size
write_lh_list_decodes_example =
    write_lh_list_decodes value_buffer two_entries 2 (omega arith) (omega arith) (omega arith)
      (omega arith, (omega arith, tt))

abbrev key_cell : Bytes
key_cell = b'n' ∷ b'k' ∷ zero_bytes 78

decode_nk-ok_iff_example :
    (decode_nk key_cell ≢ panic)
    × ((decode_nk key_cell ≡ ok (nk_fields key_cell))
        ↔ (IsNk key_cell × (nk_fields key_cell ≡ nk_fields key_cell)))
decode_nk-ok_iff_example = decode_nk-ok_iff key_cell (nk_fields key_cell)

abbrev value_cell : Bytes
value_cell = b'v' ∷ b'k' ∷ zero_bytes 22

abbrev lf_cell : Bytes
lf_cell = b'l' ∷ b'f' ∷ 1 ∷ 0 ∷ 0x20 ∷ 0 ∷ 0 ∷ 0 ∷ 7 ∷ 0 ∷ 0 ∷ 0 ∷ []

decode_subkey_list-eq_example : decode_subkey_list lf_cell 0 ≡ ok (0x20 ∷ [])
unfolding entries_at bytes_equal peek
decode_subkey_list-eq_example = decode_subkey_list-eq lf_cell 0 (omega arith) (
  omega arith,
  (
    omega arith,
    (
      omega arith,
      (
        omega arith,
        (
          omega arith,
          (
            omega arith,
            (
              omega arith,
              (omega arith, (omega arith, (omega arith, (omega arith, (omega arith, tt))))),
            ),
          ),
        ),
      ),
    ),
  ),
)
