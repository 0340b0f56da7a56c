-- ===== src/Alloc/Bump/Overlap.antt =====
-- What the bump mode leaves in the free lists, and which requests it serves.
use hivekit.Common.{
  ℕ, ◌+◌, ◌-◌, ◌%◌, ◌^◌, ◌≤◌, ◌<◌, ◌≡◌, refl, ap, ◌∙◌, arith, List, [], ◌∷◌, All, Bool, true, false,
  ◌||◌, ◌&&◌, not, Option, none, some, Outcome, ok, err, panic, length, ltb, if◌then◌else◌,
}
use hivekit.Common.Bytes.{Bytes}
use hivekit.Format.Consts.{header_size, hbin_header_size}
use hivekit.Format.Align.{align8_i32, align8_i32_lem}
use hivekit.Alloc.{
  Allocator, AllocError, FreeCell, is_negative, insert_free_cell, grown, append_zeros, hbin_stores,
}
use hivekit.Alloc.Bump.{enable_bump_mode, bump_alloc, Allocated, allocated_at, served}
use hivekit.Alloc.Bump.Region.{InBump, Fits, bump_alloc-served, served-InBump}
use hivekit.Alloc.Bump.Opened.{length-longer, length-hbin_stores}
use hivekit.Alloc.Bump.Whole.{
  Requested, bin_for, start, start-InBump, enable_bump_mode-ready, bounds, large, fitting,
}

-- Behind a request: the next ones, when it was served.
abbrev if_served :
    (Allocator → Option Allocator)
    → Outcome AllocError (Allocator × Option Allocated)
    → Option Allocator
if_served next (ok (a, some r)) = next a
if_served next (ok (a, none)) = none
if_served next (err e) = none
if_served next panic = none

-- Requests one after the other, as long as each is served.
pub alloc_all : List ℕ → Allocator → Option Allocator
unfolding bump_alloc
alloc_all [] a = some a
alloc_all (need ∷ needs) a = if_served (alloc_all needs) (bump_alloc need a)

-- What the requests come to, each as a cell.
abbrev pub sum_cells : List ℕ → ℕ
sum_cells [] = 0
sum_cells (need ∷ needs) = align8_i32 need + sum_cells needs

-- Requests of at least four bytes, without overflow of an int32, that come to no more than what the
-- bump region has left are all served, whatever their order, and the cursor moves by just that.
pub alloc_all-serves :
    (needs : List ℕ) (a : Allocator)
    → InBump a
    → All (Fits a.bump.capacity) needs
    → a.bump.cursor + sum_cells needs ≤ a.bump.capacity
    → (a' : Allocator) × (alloc_all needs a ≡ some a')
      × (a'.bump.cursor ≡ a.bump.cursor + sum_cells needs)
unfolding alloc_all
alloc_all-serves [] a inv fits room = (a, refl, omega arith)
alloc_all-serves (need ∷ needs) a inv fits room =
    let up = align8_i32_lem need (omega (arith, fits.0)) in
    let a1 : Allocator = (served (a.bump.start_off + a.bump.cursor) (align8_i32 need) a).0 in
    let cursor : a1.bump.cursor ≡ a.bump.cursor + align8_i32 need =
      omega (arith, inv.small, room) in
    let (a', e, moved) =
      alloc_all-serves needs a1 (served-InBump a inv need fits.0 (omega arith)) fits.1
        (omega (arith, cursor)) in
    (
      a',
      ap (if_served (alloc_all needs)) (bump_alloc-served a inv need fits.0 (omega arith)) ∙ e,
      omega (arith, moved, cursor),
    )

abbrev whole_region : Allocator → ℕ → FreeCell
whole_region a size = record { off = length a.buffer + 32; size = size - 32 }

grown-free :
    (a : Allocator) (size : ℕ) (b : Bytes)
    → 4096 ≤ length a.buffer
    → 36 ≤ size
    → length a.buffer + size < 2 ^ 31
    → length (hbin_stores (length a.buffer) size b) ≡ length a.buffer + size
    → (grown (length a.buffer) size (record a { buffer = b })).free ≡ whole_region a size ∷ a.free
unfolding grown insert_free_cell
grown-free a size b page large fits len =
    let end : (length a.buffer + 32 + (size - 32)) % 2 ^ 32 ≡ length a.buffer + size =
      omega arith in
    let e : (is_negative (length a.buffer + 32)
          || ltb (length a.buffer + 32) (header_size + hbin_header_size)
          || (not (is_negative ((length a.buffer + 32 + (size - 32)) % 2 ^ 32))
              && ltb (length (hbin_stores (length a.buffer) size b))
                  ((length a.buffer + 32 + (size - 32)) % 2 ^ 32)))
        ≡ false =
      ground (arith, end, len) in
    ap (λ t. kept t) e
  where
    kept : Bool → List FreeCell
    kept t =
        (if t then record a { buffer = hbin_stores (length a.buffer) size b } else record a {
          buffer = hbin_stores (length a.buffer) size b;
          free = whole_region a size ∷ a.free;
        }).free

-- What a first allocation in the bump mode leaves.
pub record Overlaps (a : Allocator) (total need : ℕ) : Type 0 where
  pub enabled : Allocator
  pub filled : Allocator
  pub allocated : Allocated
  pub enables : enable_bump_mode true total a ≡ ok enabled
  pub serves : bump_alloc need enabled ≡ ok (filled, some allocated)
  stale : filled.free ≡ whole_region a (bin_for total) ∷ a.free
  pub starts : allocated.payload_off ≡ length a.buffer + 32 + 4
  pub holds : need ≤ allocated.payload_len + 4
  pub ends : allocated.payload_len + 4 ≤ bin_for total - 32

-- The first cell that the bump mode hands out, with the hive grown for the request and for a need
-- within it, starts where the one free cell of the whole new bin starts and is not longer; growing
-- has entered that cell into the free lists, and there it still is.
pub allocated_stays_free :
    (a : Allocator) (total need : ℕ)
    → Requested a total
    → Fits (total + 4136) need
    → need ≤ total
    → Overlaps a total need
allocated_stays_free a total need asked fit small =
    let a1 : Allocator = start a total asked in
    let size : ℕ = bin_for total in
    let b = bounds a total asked in
    let up = align8_i32_lem total (omega (arith, asked)) in
    let up' = align8_i32_lem need (omega (arith, fit)) in
    let inv : InBump a1 = start-InBump a total asked [] tt in
    let fits : length a.buffer + size < 2 ^ 31 = fitting a total asked in
    let wide : 36 ≤ size = large a total asked in
    let len = length-longer a size asked.1 wide fits in
    record {
      enabled = a1;
      filled = (served (a1.bump.start_off + a1.bump.cursor) (align8_i32 need) a1).0;
      allocated = allocated_at (a1.bump.start_off + a1.bump.cursor) (align8_i32 need);
      enables = enable_bump_mode-ready a total asked;
      serves =
          bump_alloc-served a1 inv need (omega (arith, fit), omega (arith, fit, b, fits))
            (omega (arith, b, up, up', fits));
      stale = grown-free a size (append_zeros size a.buffer) asked.1 wide fits (
          length-hbin_stores (append_zeros size a.buffer) (length a.buffer) size
            (omega (arith, len)) (omega (arith, fits)) (omega (arith, fits))
          ∙ len);
      starts = omega (arith, fits);
      holds = omega (arith, up');
      ends = omega (arith, b, up, up');
    }
