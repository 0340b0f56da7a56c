-- ===== src/Alloc/Bump.antt =====
-- hive/alloc/bump.go: the bump mode, in which an allocation moves a cursor through a new bin.
pub mod Tiles
pub mod Laid
pub mod Region
pub mod Words
pub mod Finish
pub mod Opened
pub mod Whole
pub mod Overlap
use hivekit.Common.{
  ℕ, ◌+◌, ◌-◌, ◌%◌, ◌^◌, List, [], ◌∷◌, Bool, true, false, ◌||◌, ◌&&◌, not, Option, none, some,
  Outcome, ok, err, panic, ◌>>=◌, ◌>>◌, refuse, length, ltb, leb, ◌==◌, if◌then◌else◌,
}
use hivekit.Dirty.{add}
use hivekit.Format.Consts.{header_size, hbin_header_size, cell_header_size}
use hivekit.Format.Align.{align8_i32, align_hbin_i32}
use hivekit.Alloc.{
  Allocator, AllocError, bump_already_active, bump_not_active, need_not_positive, need_too_large,
  BumpState, is_negative, greater_i32, min_cell_size, put, grow_by_hbin_size, insert_free_cell,
}

abbrev pub no_bump : BumpState
no_bump = record { active = false; start_off = 0; capacity = 0; cursor = 0; hbin_start = 0 }

abbrev pub bump_region : ℕ → ℕ → BumpState
bump_region file_end hbin_size = record {
  active = true;
  start_off = (file_end + hbin_header_size) % 2 ^ 32;
  capacity = (hbin_size + 2 ^ 32 - hbin_header_size) % 2 ^ 32;
  cursor = 0;
  hbin_start = file_end;
}

-- EnableBumpMode from the growth of the hive on.
abbrev pub started : ℕ → ℕ → Allocator → Outcome AllocError Allocator
started hbin_size file_end a = ok (record a { bump = bump_region file_end hbin_size })

pub enable_sized : Bool → ℕ → ℕ → Allocator → Outcome AllocError Allocator
unfolding grow_by_hbin_size
enable_sized appended hbin_size file_end a =
    grow_by_hbin_size appended hbin_size a >>= started hbin_size file_end

-- EnableBumpMode behind its two tests of the request: `needed` is rounded up to a cell.
pub enable_aligned : Bool → ℕ → Allocator → Outcome AllocError Allocator
unfolding enable_sized align_hbin_i32
enable_aligned appended needed a = do
  refuse (not (is_negative needed) && ltb (2 ^ 31 - 1) (needed + hbin_header_size)) need_too_large
  enable_sized appended (align_hbin_i32 ((needed + hbin_header_size) % 2 ^ 32))
      (length a.buffer % 2 ^ 32) a

pub enable_bump_mode : Bool → ℕ → Allocator → Outcome AllocError Allocator
unfolding enable_aligned align8_i32
enable_bump_mode appended total_needed a = do
  refuse a.bump.active bump_already_active
  refuse ((total_needed == 0) || is_negative total_needed) need_not_positive
  enable_aligned appended (align8_i32 total_needed) a

-- The results of an allocation: the reference and the place of the payload.
pub record Allocated : Type 0 where
  pub ref : ℕ
  pub payload_off : ℕ
  pub payload_len : ℕ

abbrev pub allocated_at : ℕ → ℕ → Allocated
allocated_at off aligned = record {
  ref = (off + 2 ^ 32 - header_size) % 2 ^ 32;
  payload_off = off + cell_header_size;
  payload_len = aligned - cell_header_size;
}

abbrev pub served : ℕ → ℕ → Allocator → Allocator × Option Allocated
served off aligned a = (
  record a {
    buffer = put off ((2 ^ 32 - aligned) % 2 ^ 32) a.buffer;
    dt = add a.dt off cell_header_size;
    bump = record a.bump { cursor = (a.bump.cursor + aligned) % 2 ^ 32 };
  },
  some (allocated_at off aligned),
)

-- bumpAlloc: none is an exhausted region. A header outside the file and a payload that ends before it
-- starts, or outside the file, panic.
pub bump_alloc : ℕ → Allocator → Outcome AllocError (Allocator × Option Allocated)
unfolding align8_i32
bump_alloc need a =
    let aligned = align8_i32 need in
    let off = (a.bump.start_off + a.bump.cursor) % 2 ^ 32 in
    if greater_i32 ((a.bump.cursor + aligned) % 2 ^ 32) a.bump.capacity
    then ok (a, none)
    else if is_negative off
        || is_negative aligned
        || ltb aligned cell_header_size
        || ltb (length a.buffer) (off + aligned)
    then panic
    else ok (served off aligned a)

-- The trailing free cell of FinalizeBumpMode.
pub trailing : ℕ → ℕ → Allocator → Allocator
unfolding insert_free_cell
trailing trail_off remaining a = insert_free_cell trail_off remaining (record a {
  buffer = put trail_off remaining a.buffer;
  dt = add a.dt trail_off cell_header_size;
})

pub finalize_bump_mode : Allocator → Outcome AllocError Allocator
unfolding trailing
finalize_bump_mode a =
    let remaining = (a.bump.capacity + 2 ^ 32 - a.bump.cursor) % 2 ^ 32 in
    let trail_off = (a.bump.start_off + a.bump.cursor) % 2 ^ 32 in
    if not a.bump.active
    then err bump_not_active
    else if is_negative remaining || ltb remaining min_cell_size
    then ok (record a { bump = no_bump })
    else if is_negative trail_off || ltb (length a.buffer) (trail_off + cell_header_size)
    then panic
    else ok (record (trailing trail_off remaining a) { bump = no_bump })
