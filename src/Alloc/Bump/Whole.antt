-- ===== src/Alloc/Bump/Whole.antt =====
-- The whole bump mode: a bin is opened, filled and finished.
use hivekit.Common.{
  ℕ, ◌+◌, ◌-◌, ◌%◌, ◌^◌, ◌≤◌, ◌<◌, ◌≡◌, ap, ap₂, ◌∙◌, arith, List, ◌++◌, All, true, false, ◌||◌,
  ◌&&◌, not, ok, ◌>>=◌, refuse-passes, length, ltb, ◌==◌,
}
use hivekit.Common.Bytes.{Bytes}
use hivekit.Format.Consts.{hbin_header_size}
use hivekit.Format.Align.{align8_i32, align_hbin_i32, align8_i32_lem, align_hbin_i32_lem}
use hivekit.Verify.Bins.Accepted.{IsBin, hbin_size}
use hivekit.Alloc.{Allocator, is_negative}
use hivekit.Alloc.Bump.{enable_bump_mode, enable_aligned, enable_sized, started, finalize_bump_mode}
use hivekit.Alloc.Bump.Tiles.{CellsTile}
use hivekit.Alloc.Bump.Region.{InBump, Fits, run_allocs}
use hivekit.Alloc.Bump.Laid.{Laid, granted, room_left, free_words}
use hivekit.Alloc.Bump.Opened.{ready, grow_by_hbin_size-opens, ready-InBump}

-- A request of so many bytes, and the room that the file has left for it.
abbrev pub Requested : Allocator → ℕ → Type 0
Requested a total =
    (a.bump.active ≡ false)
    × (4096 ≤ length a.buffer)
    × (0 < total)
    × (length a.buffer + total + 4136 < 2 ^ 31)

-- The size of the bin for it.
abbrev pub bin_for : ℕ → ℕ
bin_for total = align_hbin_i32 (align8_i32 total + 32)

bin_for-bounds :
    (total : ℕ)
    → 0 < total
    → total + 8232 < 2 ^ 31
    → (bin_for total % 4096 ≡ 0)
      × (align8_i32 total + 32 ≤ bin_for total)
      × (bin_for total < total + 4136)
bin_for-bounds total p h =
    let cells = align8_i32_lem total (omega arith) in
    let pages = align_hbin_i32_lem (align8_i32 total + 32) (omega (arith, cells)) in
    (pages.0, pages.1, omega (arith, pages, cells))

-- The three steps return, and what they leave.
pub record Bumped (total : ℕ) (needs : List ℕ) (a : Allocator) : Type 0 where
  pub enabled : Allocator
  pub filled : Allocator
  pub final : Allocator
  pub enables : enable_bump_mode true total a ≡ ok enabled
  pub fills : run_allocs needs enabled ≡ ok filled
  finishes : finalize_bump_mode filled ≡ ok final
  is_bin : IsBin final.buffer (length a.buffer)
  to_the_end : length a.buffer + hbin_size final.buffer (length a.buffer) ≡ length final.buffer
  pub room : total + 32 ≤ hbin_size final.buffer (length a.buffer)
  pub tiled : CellsTile final.buffer (length final.buffer) (length a.buffer + 32)
  -- The cells of the bin: one for each need that there was room for, of its size rounded up and
  -- marked as allocated, in their order, and then a free one of all that is left.
  pub laid :
      Laid final.buffer
        (granted (bin_for total - 32) needs ++ free_words (room_left (bin_for total - 32) needs))
        (length a.buffer + 32)
        (length final.buffer)

module _ (a : Allocator) (total : ℕ) (asked : Requested a total) where
  abbrev pub size : ℕ
  size = bin_for total

  pub bounds : (size % 4096 ≡ 0) × (align8_i32 total + 32 ≤ size) × (size < total + 4136)
  bounds = let (off, page, positive, fits) = asked in bin_for-bounds total positive (omega arith)

  pub large : 36 ≤ size
  large =
      let (off, page, positive, fits) = asked in
      omega (arith, bounds, align8_i32_lem total (omega arith))

  pub fitting : length a.buffer + size < 2 ^ 31
  fitting = let (off, page, positive, fits) = asked in omega (arith, bounds)

  abbrev pub start : Allocator
  start = ready a size asked.1 large fitting

  sized-ready : enable_sized true size (length a.buffer) a ≡ ok start
  unfolding enable_sized
  sized-ready =
      ap (λ r. r >>= started size (length a.buffer))
        (grow_by_hbin_size-opens a size asked.1 large fitting)

  enable_aligned-ready : enable_aligned true (align8_i32 total) a ≡ ok start
  unfolding enable_aligned
  enable_aligned-ready =
      let (off, page, positive, fits) = asked in
      let up = align8_i32_lem total (omega arith) in
      let e : (not (is_negative (align8_i32 total))
            && ltb (2 ^ 31 - 1) (align8_i32 total + hbin_header_size))
          ≡ false =
        ground (arith, up) in
      let m : (align8_i32 total + hbin_header_size) % 2 ^ 32 ≡ align8_i32 total + hbin_header_size =
        omega (arith, up) in
      let here : length a.buffer % 2 ^ 32 ≡ length a.buffer = omega arith in
      refuse-passes _ _ _ e
      ∙ ap₂ (λ s f. enable_sized true s f a) (ap align_hbin_i32 m) here
      ∙ sized-ready

  pub enable_bump_mode-ready : enable_bump_mode true total a ≡ ok start
  unfolding enable_bump_mode
  enable_bump_mode-ready =
      let (off, page, positive, fits) = asked in
      let t : ((total == 0) || is_negative total) ≡ false = ground arith in
      refuse-passes _ _ _ off ∙ refuse-passes _ _ _ t ∙ enable_aligned-ready

  module _ (needs : List ℕ) (fit : All (Fits (total + 4136)) needs) where
    pub start-InBump : InBump start
    start-InBump = ready-InBump a size asked.1 large fitting bounds.0
