-- ===== src/Merge/Cells.antt =====
-- hive/merge/v2/write/cells.go: the payloads of new cells, each as its run of stores. `now` is the
-- FILETIME of the call of time.Now.
mod Readback
pub mod ValueRecord
pub mod KeyRecord
pub mod EntryLists
use hivekit.Common.{
  ℕ, zero, suc, ◌+◌, ◌*◌, ◌%◌, ◌^◌, List, [], ◌∷◌, ◌++◌, length, Outcome, ◌>>=◌, leb, ltb,
  if◌then◌else◌,
}
use hivekit.Common.Bytes.{Bytes, overwrite, le_value}
use hivekit.Format.Consts.{Error, invalid_offset}
use hivekit.Format.Stores.{Store, byte, u16, u32, u64, copy, run}

-- A subkeys.RawEntry.
pub record RawEntry : Type 0 where
  pub nk_ref : ℕ
  pub hash : ℕ

abbrev pub nk_stores : Bytes → ℕ → ℕ → ℕ → List Store
nk_stores name parent_ref sk_ref now =
    byte 0 b'n'
    ∷ byte 1 b'k'
    ∷ u16 0x02 0x0020
    ∷ u64 0x04 now
    ∷ u32 0x0C 0
    ∷ u32 0x10 parent_ref
    ∷ u32 0x14 0
    ∷ u32 0x18 0
    ∷ u32 0x1C invalid_offset
    ∷ u32 0x20 invalid_offset
    ∷ u32 0x24 0
    ∷ u32 0x28 invalid_offset
    ∷ u32 0x2C sk_ref
    ∷ u32 0x30 invalid_offset
    ∷ u32 0x34 0
    ∷ u32 0x38 0
    ∷ u32 0x3C 0
    ∷ u32 0x40 0
    ∷ u32 0x44 0
    ∷ u16 0x48 (length name % 2 ^ 16)
    ∷ u16 0x4A 0
    ∷ copy 0x4C name
    ∷ []

write_nk : Bytes → Bytes → ℕ → ℕ → ℕ → Outcome Error Bytes
write_nk buf name parent_ref sk_ref now = run (nk_stores name parent_ref sk_ref now) buf

abbrev pub count_stores : ℕ → ℕ → ℕ → ℕ → List Store
count_stores subkey_count subkey_list_ref value_count value_list_ref =
    u32 0x14 subkey_count
    ∷ u32 0x1C subkey_list_ref
    ∷ u32 0x24 value_count
    ∷ u32 0x28 value_list_ref
    ∷ []

pub write_nk_with_counts : Bytes → Bytes → ℕ → ℕ → ℕ → ℕ → ℕ → ℕ → ℕ → Outcome Error Bytes
unfolding write_nk
write_nk_with_counts buf name parent_ref sk_ref now subkey_count subkey_list_ref value_count
      value_list_ref =
    do
      buf' ← write_nk buf name parent_ref sk_ref now
      run (count_stores subkey_count subkey_list_ref value_count value_list_ref) buf'

-- `uint32(n) | VKSmallDataMask` of a number below 2^31.
abbrev with_small_data_bit : ℕ → ℕ
with_small_data_bit n = if ltb n (2 ^ 31) then n + 2 ^ 31 else n

-- Up to four bytes of data stand in the offset field itself.
abbrev pub vk_length_field : Bytes → ℕ
vk_length_field src =
    if leb (length src) 4 then with_small_data_bit (length src) else length src % 2 ^ 32

abbrev pub vk_offset_field : Bytes → ℕ → ℕ
vk_offset_field src data_ref =
    if leb (length src) 4 then le_value (overwrite src (0 ∷ 0 ∷ 0 ∷ 0 ∷ [])) else data_ref

abbrev pub vk_stores : Bytes → ℕ → Bytes → ℕ → List Store
vk_stores name val_type src data_ref =
    byte 0 b'v'
    ∷ byte 1 b'k'
    ∷ u16 0x02 (length name % 2 ^ 16)
    ∷ u32 0x04 (vk_length_field src)
    ∷ u32 0x08 (vk_offset_field src data_ref)
    ∷ u32 0x0C val_type
    ∷ u16 0x10 0x0001
    ∷ u16 0x12 0
    ∷ copy 0x14 name
    ∷ []

pub write_vk : Bytes → Bytes → ℕ → Bytes → ℕ → Outcome Error Bytes
write_vk buf name val_type src data_ref = run (vk_stores name val_type src data_ref) buf

-- The loop of WriteLHList, from entry `i` on.
abbrev pub lh_entry_stores : ℕ → List RawEntry → List Store
lh_entry_stores i [] = []
lh_entry_stores i (entry ∷ entries) =
    u32 (4 + i * 8) entry.nk_ref ∷ u32 (4 + i * 8 + 4) entry.hash ∷ lh_entry_stores (i + 1) entries

abbrev pub lh_stores : List RawEntry → List Store
lh_stores entries =
    byte 0 b'l' ∷ byte 1 b'h' ∷ u16 2 (length entries % 2 ^ 16) ∷ lh_entry_stores 0 entries

pub write_lh_list : Bytes → List RawEntry → Outcome Error Bytes
write_lh_list buf entries = run (lh_stores entries) buf

-- The loop of WriteValueList, from reference `i` on.
abbrev value_list_stores : ℕ → List ℕ → List Store
value_list_stores i [] = []
value_list_stores i (ref ∷ refs) = u32 (i * 4) ref ∷ value_list_stores (i + 1) refs

write_value_list : Bytes → List ℕ → Outcome Error Bytes
write_value_list buf vk_refs = run (value_list_stores 0 vk_refs) buf

unfoldable pub nk_payload_size : Bytes → ℕ
nk_payload_size name = 0x4C + length name

unfoldable pub vk_payload_size : Bytes → ℕ
vk_payload_size name = 0x14 + length name

unfoldable pub lh_list_payload_size : ℕ → ℕ
lh_list_payload_size count = 4 + count * 8

value_list_payload_size : ℕ → ℕ
value_list_payload_size count = count * 4
