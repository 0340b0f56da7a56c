-- ===== src/Alloc.antt =====
-- hive/alloc: the allocator of cells. An int32 is its bit pattern. Of the allocator's state the part
-- that the bump mode works on is modelled: the bytes, the dirty ranges, the bump region, and the free
-- cells that were entered into the free lists, as one list: which list takes a cell, and the indexes of
-- it, are left out, and so are the index of the bins, the counters and the test hook. There is a
-- tracker of dirty ranges.
pub mod Bump
use hivekit.Common.{
  ℕ, zero, suc, ◌+◌, ◌-◌, not, ◌%◌, ◌^◌, List, [], ◌∷◌, ◌++◌, Bool, true, false, ◌||◌, ◌&&◌,
  Outcome, ok, err, panic, length, ltb, leb, if◌then◌else◌,
}
use hivekit.Common.Bytes.{Bytes, peek, poke, le_bytes}
use hivekit.Common.Int.{ℤ, pos, ltb_ℤ, ◌+ℤ◌}
use hivekit.Dirty.{Tracker, add}
use hivekit.Format.Consts.{
  header_size, hbin_header_size, hbin_signature, hbin_file_offset_field, hbin_size_offset,
  data_size_offset, checksum_offset, checksum_dwords,
}
use hivekit.Format.Encoding.{to_int32}
use hivekit.Tx.{xor_dwords}

abbrev pub is_negative : ℕ → Bool
is_negative w = leb (2 ^ 31) w

-- `a > b` of int32s.
abbrev pub greater_i32 : ℕ → ℕ → Bool
greater_i32 a b = ltb ((b + 2 ^ 31) % 2 ^ 32) ((a + 2 ^ 31) % 2 ^ 32)

abbrev pub max_hive_size : ℕ
max_hive_size = 0x7FFFFFFF

abbrev pub min_cell_size : ℕ
min_cell_size = 8

pub data AllocError : Type 0 where
  bump_already_active bump_not_active need_not_positive need_too_large too_large_hive grow_fail :
      AllocError

pub record BumpState : Type 0 where
  pub active : Bool
  pub start_off : ℕ
  pub capacity : ℕ
  pub cursor : ℕ
  pub hbin_start : ℕ

pub record FreeCell : Type 0 where
  pub off : ℕ
  pub size : ℕ

pub record Allocator : Type 0 where
  pub buffer : Bytes
  pub dt : Tracker
  pub bump : BumpState
  pub free : List FreeCell

abbrev pub put : ℕ → ℕ → Bytes → Bytes
put off v buffer = poke (le_bytes 4 v) off buffer

-- updateHeaderChecksum
pub update_header_checksum : Bytes → Bytes
update_header_checksum buffer =
    if ltb (length buffer) header_size
    then buffer
    else put checksum_offset (xor_dwords buffer 0 checksum_dwords 0) buffer

-- Hive.BumpDataSize
pub bump_data_size : ℕ → Bytes → Bytes
bump_data_size delta buffer =
    if ltb (length buffer) header_size
    then buffer
    else put data_size_offset ((peek 4 buffer data_size_offset + delta) % 2 ^ 32) buffer

pub insert_free_cell : ℕ → ℕ → Allocator → Allocator
insert_free_cell off size a =
    let end = (off + size) % 2 ^ 32 in
    if is_negative off
      || ltb off (header_size + hbin_header_size)
      || (not (is_negative end) && ltb (length a.buffer) end)
    then a
    else record a { free = record { off = off; size = size } ∷ a.free }

unfoldable pub zeros : ℕ → Bytes
zeros zero = []
zeros (suc n) = 0 ∷ zeros n

-- Hive.Append: the file grows by zeros, and does not by nothing or less.
pub append_zeros : ℕ → Bytes → Bytes
unfolding zeros
append_zeros n buffer = if is_negative n then buffer else buffer ++ zeros n

-- The statements of growByHBINSize that fill the new bin and the header page.
pub hbin_stores : ℕ → ℕ → Bytes → Bytes
hbin_stores hbin_off hbin_size buffer =
    put (hbin_off + hbin_header_size) (hbin_size - hbin_header_size) (
      put (hbin_off + hbin_size_offset) hbin_size (
        put (hbin_off + hbin_file_offset_field) (hbin_off - header_size)
          (poke hbin_signature hbin_off buffer)))

pub grown : ℕ → ℕ → Allocator → Allocator
unfolding hbin_stores insert_free_cell bump_data_size update_header_checksum
grown hbin_off hbin_size a =
    let filled = record a { buffer = hbin_stores hbin_off hbin_size a.buffer } in
    let entered =
      insert_free_cell (hbin_off + hbin_header_size) (hbin_size - hbin_header_size) filled in
    record entered {
      buffer = update_header_checksum (bump_data_size hbin_size entered.buffer);
      dt = add (add entered.dt 0 header_size) hbin_off hbin_size;
    }

-- growByHBINSize. `appended` is what the system says to the growth of the file.
pub grow_by_hbin_size : Bool → ℕ → Allocator → Outcome AllocError Allocator
unfolding grown append_zeros
grow_by_hbin_size appended hbin_size a =
    let hbin_off = length a.buffer % 2 ^ 32 in
    let longer = append_zeros hbin_size a.buffer in
    if ltb_ℤ (pos max_hive_size) (to_int32 hbin_off +ℤ to_int32 hbin_size)
    then err too_large_hive
    else if not appended && not (is_negative hbin_size)
    then err grow_fail
    else if is_negative hbin_off || ltb (length longer) (hbin_off + hbin_header_size + 4)
    then panic
    else ok (grown hbin_off hbin_size (record a { buffer = longer }))
