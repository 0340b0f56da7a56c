-- ===== src/Merge/Cells/KeyRecord.antt =====
-- What `DecodeNK` reads back from the payload that `WriteNKWithCounts` writes.
use hivekit.Common.{
  ℕ, ◌%◌, ◌^◌, ◌≤◌, ◌<◌, ◌≡◌, refl, sym, ◌∙◌, arith, List, ◌++◌, length, ok, take, true, some,
}
use hivekit.Common.Bytes.{Bytes, slice, peek, le_bytes}
use hivekit.Format.Consts.{
  invalid_offset, max_name_len, max_subkey_count, max_value_count, bytes_equal, nk_signature,
}
use hivekit.Format.Stores.{
  peek-result, Store, result, Within, written, run-append, run-eq-result, result-append,
  slice-result, slice-result-untouched, length-result,
}
use hivekit.Format.Nk.{NkRecord, decode_nk}
use hivekit.Format.Nk.Shape.{IsNk, nk_fields, decode_nk-ok_iff}
use hivekit.Merge.Cells.Readback.{take_two}
use hivekit.Merge.Cells.{nk_stores, count_stores, write_nk_with_counts, nk_payload_size}

module _ (buf name : Bytes)
    (parent_ref sk_ref now subkey_count subkey_list_ref value_count value_list_ref : ℕ)
    (room : nk_payload_size name ≤ length buf) (hn : length name ≤ max_name_len)
    (hsc : subkey_count ≤ max_subkey_count) (hvc : value_count ≤ max_value_count)
    (hp : parent_ref < 2 ^ 32) (hsk : sk_ref < 2 ^ 32) (hnow : now < 2 ^ 64)
    (hsl : subkey_list_ref < 2 ^ 32) (hvl : value_list_ref < 2 ^ 32) where
  abbrev count_run : List Store
  count_run = count_stores subkey_count subkey_list_ref value_count value_list_ref

  abbrev nk_run : List Store
  nk_run = nk_stores name parent_ref sk_ref now ++ count_run

  nk_stores-Within : Within nk_run (length buf)
  unfolding nk_payload_size
  nk_stores-Within = omega (arith, room)

  abbrev nk_written : Bytes
  nk_written = result nk_run buf

  read_back :
      (k off v : ℕ)
      → written k off nk_run ≡ some (le_bytes k v)
      → v < 256 ^ k
      → peek k nk_written off ≡ v
  read_back k off v w h = peek-result k off nk_run buf v nk_stores-Within w h

  nk_name_length : peek 2 nk_written 0x48 ≡ length name
  nk_name_length = read_back 2 0x48 (length name % 2 ^ 16) refl (omega arith) ∙ omega (arith, hn)

  nk_name : slice (length name) 0x4C nk_written ≡ name
  unfolding nk_payload_size
  nk_name = rw (result-append (nk_stores name parent_ref sk_ref now) count_run buf) (
      slice-result-untouched (length name) 0x4C count_run _ (ground arith)
      ∙ slice-result (length name) 0x4C (nk_stores name parent_ref sk_ref now) buf name
          (omega (arith, room)) (ground arith))

  nk_signed : bytes_equal (take 2 nk_written) nk_signature ≡ true
  unfolding bytes_equal
  nk_signed =
      rw
        (take_two b'n' b'k' nk_written (slice-result 1 0 nk_run buf _ nk_stores-Within refl)
          (slice-result 1 1 nk_run buf _ nk_stores-Within refl))
        refl

  nk_read_back : NkRecord
  nk_read_back = record {
    flags = 0x0020;
    last_write_raw = now;
    parent_offset = parent_ref;
    subkey_count = subkey_count;
    subkey_list_offset = subkey_list_ref;
    value_count = value_count;
    value_list_offset = value_list_ref;
    security_offset = sk_ref;
    class_name_offset = invalid_offset;
    max_name_length = 0;
    max_class_length = 0;
    max_value_name_length = 0;
    max_value_data_length = 0;
    name_length = length name;
    class_length = 0;
    name_raw = name;
  }

  nk_fields_written : nk_fields nk_written ≡ nk_read_back
  unfolding nk_read_back
  nk_fields_written = rw (
    read_back 2 0x02 0x0020 refl (omega arith),
    read_back 8 0x04 now refl hnow,
    read_back 4 0x10 parent_ref refl hp,
    read_back 4 0x14 subkey_count refl (omega (arith, hsc)),
    read_back 4 0x1C subkey_list_ref refl hsl,
    read_back 4 0x24 value_count refl (omega (arith, hvc)),
    read_back 4 0x28 value_list_ref refl hvl,
    read_back 4 0x2C sk_ref refl hsk,
    read_back 4 0x30 invalid_offset refl (omega arith),
    read_back 4 0x34 0 refl (omega arith),
    read_back 4 0x38 0 refl (omega arith),
    read_back 4 0x3C 0 refl (omega arith),
    read_back 4 0x40 0 refl (omega arith),
    nk_name_length,
    read_back 2 0x4A 0 refl (omega arith),
    nk_name,
  )

  nk_written-IsNk : IsNk nk_written
  unfolding nk_payload_size
  nk_written-IsNk = record {
    signature = nk_signed;
    subkey_limit = rw (read_back 4 0x14 subkey_count refl (omega (arith, hsc))) hsc;
    value_limit = rw (read_back 4 0x24 value_count refl (omega (arith, hvc))) hvc;
    name_limit = rw nk_name_length hn;
    class_limit = rw (read_back 2 0x4A 0 refl (omega arith)) (omega arith);
    fits = rw (nk_name_length, length-result) room;
  }

  -- `WriteNKWithCounts` fills any buffer of NKPayloadSize bytes, and `DecodeNK` gives back exactly
  -- what went in: the name, flagged as compressed, the time, the parent, the counts, the two lists
  -- and the security cell; there is no class, and the maxima are zero. The name and the counts keep
  -- to the decoder's limits, and every reference is a uint32.
  pub write_nk_decodes :
      (b' : Bytes) × (write_nk_with_counts buf name parent_ref sk_ref now subkey_count
          subkey_list_ref value_count value_list_ref
        ≡ ok b')
      × (decode_nk b'
          ≡ ok (record {
            flags = 0x0020;
            last_write_raw = now;
            parent_offset = parent_ref;
            subkey_count = subkey_count;
            subkey_list_offset = subkey_list_ref;
            value_count = value_count;
            value_list_offset = value_list_ref;
            security_offset = sk_ref;
            class_name_offset = invalid_offset;
            max_name_length = 0;
            max_class_length = 0;
            max_value_name_length = 0;
            max_value_data_length = 0;
            name_length = length name;
            class_length = 0;
            name_raw = name;
          }))
  unfolding write_nk_with_counts nk_read_back
  write_nk_decodes = (
    nk_written,
    sym (run-append _ _ buf) ∙ run-eq-result nk_run buf nk_stores-Within,
    (decode_nk-ok_iff nk_written nk_read_back).1.1 (nk_written-IsNk, sym nk_fields_written),
  )
