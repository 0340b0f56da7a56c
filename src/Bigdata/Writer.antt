-- ===== src/Bigdata/Writer.antt =====
-- hive/bigdata/writer.go, over the allocator's interface (hive/alloc/types.go): what the writer needs
-- of it, as operations on a state of cells.
pub mod Need
use hivekit.Common.{
  ℕ, zero, suc, ◌+◌, ◌-◌, ◌*◌, ◌/◌, ◌%◌, ◌^◌, ◌≤◌, ◌<◌, ◌≡◌, ◌≢◌, List, [], ◌∷◌, Option, none, some,
  length, Outcome, ok, err, panic, ◌>>=◌, ◌>>◌, refuse, ltb, ◌==◌, if◌then◌else◌, min,
}
use hivekit.Common.Bytes.{Bytes, slice, overwrite}
use hivekit.Common.Int.{ℤ, pos, quot_ℤ}
use hivekit.Buf.{add_int}
use hivekit.Dirty.{Tracker, add}
use hivekit.Format.Consts.{
  Error, empty_data, data_too_large, block_too_big, short_buffer, cell_header_size, header_size,
  db_header_size,
}
use hivekit.Format.Align.{align8}
use hivekit.Format.Encoding.{to_int32}
use hivekit.Format.Hbin.{raw_size}
use hivekit.Bigdata.{write_db_header, write_blocklist, max_block_size}

-- alloc.Class, of which the writer uses three.
pub data Class : Type 0 where
  class_rd class_bl class_db : Class

-- The allocator and the hive: `alloc` returns the reference and the buffer of a cell, `set_payload` is
-- a write through its buffer, `header` the word in front of it.
pub record Cells (S : Type 0) : Type 0 where
  pub grow_by_pages : ℤ → S → Outcome Error S
  pub alloc : ℕ → Class → S → Outcome Error ((ℕ × Bytes) × S)
  pub set_payload : ℕ → Bytes → S → S
  pub header : S → ℕ → ℕ

pub record Writer (S : Type 0) : Type 0 where
  pub cells : S
  pub dt : Tracker

-- The loop of calculateTotalNeed. `fuel` bounds its turns; `total` is an int32.
pub block_need : ℕ → ℕ → ℕ → Option ℕ
block_need zero remaining total = none
block_need (suc fuel) remaining total =
    let chunk = if ltb max_block_size remaining then max_block_size else remaining in
    let rest =
      block_need fuel (remaining - chunk)
        ((total + align8 (cell_header_size + chunk) % 2 ^ 32) % 2 ^ 32) in
    if ltb 0 remaining then rest else some total

pub calculate_total_need : ℕ → Bytes → ℕ → Option ℕ
unfolding block_need
calculate_total_need fuel src num_blocks = block_need fuel (length src) (
    (align8 (cell_header_size + db_header_size) % 2 ^ 32
      + align8 (cell_header_size + num_blocks * 4) % 2 ^ 32)
    % 2 ^ 32)

-- (int(totalNeed) + 4095) / 4096
pub page_count : ℕ → ℤ
page_count total_need = quot_ℤ (add_int (to_int32 total_need) (pos 4095)) (pos 4096)

module _ {S : Type 0} (c : Cells S) where
  -- markCellDirty: the whole cell, by the word in front of it.
  abbrev pub mark_cell_dirty : ℕ → Writer S → Writer S
  mark_cell_dirty ref w = record w {
    dt = add w.dt (header_size + ref) (raw_size (c.header w.cells ref));
  }

  -- What all three writers of cells do behind Alloc: test the buffer, fill it, and mark the cell.
  abbrev pub fill_cell :
      ℕ → (Bytes → Outcome Error Bytes) → Tracker → (ℕ × Bytes) × S → Outcome Error (ℕ × Writer S)
  fill_cell size fill dt ((ref, buf), s) = do
    refuse (ltb (length buf) size) short_buffer
    buf' ← fill buf
    ok (ref, mark_cell_dirty ref (record { cells = c.set_payload ref buf' s; dt = dt }))

  pub write_data_block : Bytes → Writer S → Outcome Error (ℕ × Writer S)
  write_data_block src w = do
    refuse (ltb max_block_size (length src)) block_too_big
    cell ← c.alloc (length src + cell_header_size) class_rd w.cells
    fill_cell (length src) (λ buf. ok (overwrite src buf)) w.dt cell

  pub write_blocklist_cell : List ℕ → Writer S → Outcome Error (ℕ × Writer S)
  write_blocklist_cell block_refs w = do
    cell ← c.alloc (length block_refs * 4 + cell_header_size) class_bl w.cells
    fill_cell (length block_refs * 4) (λ buf. write_blocklist buf block_refs) w.dt cell

  pub write_header_cell : ℕ → ℕ → Writer S → Outcome Error (ℕ × Writer S)
  write_header_cell count blocklist_ref w = do
    cell ← c.alloc (db_header_size + cell_header_size) class_db w.cells
    fill_cell db_header_size (λ buf. write_db_header buf count blocklist_ref) w.dt cell

  -- The loop of Store over its blocks, from block `i` on, `n` of them.
  pub write_blocks : ℕ → ℕ → Bytes → Writer S → Outcome Error (List ℕ × Writer S)
  unfolding write_data_block
  write_blocks zero i src w = ok ([], w)
  write_blocks (suc n) i src w =
      let start = i * max_block_size in
      let end = min (start + max_block_size) (length src) in
      do
        (ref, w1) ← write_data_block (slice (end - start) start src) w
        (refs, w2) ← write_blocks n (i + 1) src w1
        ok (ref ∷ refs, w2)

  -- Store behind the growth of the hive.
  pub store_cells : ℕ → Bytes → Writer S → Outcome Error (ℕ × Writer S)
  unfolding write_blocks write_blocklist_cell write_header_cell
  store_cells num_blocks src w = do
    (refs, w1) ← write_blocks num_blocks 0 src w
    (blocklist_ref, w2) ← write_blocklist_cell refs w1
    write_header_cell (num_blocks % 2 ^ 16) blocklist_ref w2

  abbrev pub num_blocks_of : Bytes → ℕ
  num_blocks_of src = (length src + max_block_size - 1) / max_block_size

  -- Store with the total, if the fuel gave one.
  pub store_reserved : ℕ → Bytes → Writer S → ℕ → Outcome Error (ℕ × Writer S)
  unfolding store_cells page_count
  store_reserved num_blocks src w total_need = do
    grown ← c.grow_by_pages (page_count total_need) w.cells
    store_cells num_blocks src (record w { cells = grown })

  pub store : ℕ → Bytes → Writer S → Option (Outcome Error (ℕ × Writer S))
  unfolding store_reserved calculate_total_need
  store fuel src w =
      let num_blocks = num_blocks_of src in
      if length src == 0
      then some (err empty_data)
      else if ltb 65535 num_blocks
      then some (err data_too_large)
      else elim (calculate_total_need fuel src num_blocks) [
        | none ↦ none
        | some total_need ↦ some (store_reserved num_blocks src w total_need)
      ]
