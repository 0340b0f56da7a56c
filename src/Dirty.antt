-- ===== src/Dirty.antt =====
-- hive/dirty: the tracker of dirty byte ranges (dirty.go) and its flush (flush_unix.go). Offsets and
-- lengths are those of bytes in a file: not negative, with sums that an int64 holds.
pub mod Coalesce
pub mod Flush
use hivekit.Common.{
  ℕ, zero, suc, ◌+◌, ◌-◌, ◌*◌, ◌/◌, ◌%◌, ◌<◌, List, [], ◌∷◌, ◌++◌, map, Bool, true, false, not,
  ◌||◌, ◌&&◌, Option, none, some, ltb, leb, ◌==◌, if◌then◌else◌, min,
}

pub data FlushMode : Type 0 where
  flush_auto flush_data_only_mode flush_full : FlushMode

pub record Range : Type 0 where
  pub off : ℕ
  pub len : ℕ

pub record Tracker : Type 0 where
  pub ranges : List Range
  pub page_size : ℕ

abbrev standard_page_size : ℕ
standard_page_size = 4096

pub new_tracker : Tracker
new_tracker = record { ranges = []; page_size = standard_page_size }

pub add : Tracker → ℕ → ℕ → Tracker
add t off length = record t { ranges = t.ranges ++ (record { off = off; len = length } ∷ []) }

reset : Tracker → Tracker
reset t = record t { ranges = [] }

abbrev pub round_up : ℕ → ℕ → ℕ
round_up page_size end =
    if not (end % page_size == 0) then (end / page_size + 1) * page_size else end

unfoldable pub align : ℕ → Range → Range
align page_size r =
    let start = r.off / page_size * page_size in
    record { off = start; len = round_up page_size (r.off + r.len) - start }

-- sort.Slice by offset.
pub insert_by_off : Range → List Range → List Range
insert_by_off r [] = r ∷ []
insert_by_off r (s ∷ rs) = if ltb s.off r.off then s ∷ insert_by_off r rs else r ∷ s ∷ rs

pub sort_by_off : List Range → List Range
unfolding insert_by_off
sort_by_off [] = []
sort_by_off (r ∷ rs) = insert_by_off r (sort_by_off rs)

-- `current` grown to the end of `next`.
abbrev pub extend : Range → Range → Range
extend current next =
    let end = current.off + current.len in
    let next_end = next.off + next.len in
    record current { len = (if ltb end next_end then next_end else end) - current.off }

-- The merge loop: `current` is the range that may still grow, the list what is left of `aligned`.
pub merge_ranges : Range → List Range → List Range
merge_ranges current [] = current ∷ []
merge_ranges current (next ∷ rest) =
    let grown = merge_ranges (extend current next) rest in
    let apart = current ∷ merge_ranges next rest in
    if leb next.off (current.off + current.len) then grown else apart

pub merge_sorted : List Range → List Range
unfolding merge_ranges
merge_sorted [] = []
merge_sorted (r ∷ rs) = merge_ranges r rs

unfoldable pub coalesce : Tracker → List Range
unfolding merge_sorted sort_by_off align
coalesce t = merge_sorted (sort_by_off (map (align t.page_size) t.ranges))

-- What the environment does at one range: `ctx.Err()` is set, msync fails, or msync returns.
pub data Answer : Type 0 where
  cancelled failed done : Answer

-- The loop of flushRanges: the ranges that were handed to msync and returned, and the error.
unfoldable pub flush_loop : (Range → Answer) → ℕ → List Range → List Range × Option Answer
flush_loop env data_len [] = ([], none)
flush_loop env data_len (r ∷ rs) =
    let (later, e) = flush_loop env data_len rs in
    elim (env r) [
      | cancelled ↦ ([], some cancelled)
      | failed ↦
          if (r.off == 0) || ltb data_len (r.off + r.len) then (later, e) else ([], some failed)
      | done ↦ if (r.off == 0) || ltb data_len (r.off + r.len) then (later, e) else (r ∷ later, e)
    ]

-- `tracker` is the state afterwards, and `synced` what was handed to msync, in order.
pub record Flushed : Type 0 where
  pub tracker : Tracker
  pub synced : List Range
  pub error : Option Answer

-- The ranges are cleared after a flush without error, and stay after one with.
abbrev finish_flush : Tracker → List Range × Option Answer → Flushed
finish_flush t (synced, none) = record { tracker = reset t; synced = synced; error = none }
finish_flush t (synced, some e) = record { tracker = t; synced = synced; error = some e }

-- FlushDataOnly. `cancelled_before` is `ctx.Err()` at its start, `data_len` the length of the hive.
unfoldable pub flush_data_only : Bool → (Range → Answer) → ℕ → Tracker → Flushed
unfolding reset
flush_data_only cancelled_before env data_len t = elim t.ranges [
  | [] ↦ record { tracker = t; synced = []; error = none }
  | _ ∷ _ ↦
      if cancelled_before
      then record { tracker = t; synced = []; error = some cancelled }
      else if data_len == 0
      then record { tracker = t; synced = []; error = none }
      else finish_flush t (flush_loop env data_len (coalesce t))
]

-- A call to the system: msync of the first bytes of the hive, and fdatasync with its flag.
pub data SyncCall : Type 0 where
  msync_header : ℕ → SyncCall
  fdatasync : Bool → SyncCall

abbrev is_data_only : FlushMode → Bool
is_data_only flush_data_only_mode = true
is_data_only _ = false

abbrev is_full : FlushMode → Bool
is_full flush_full = true
is_full _ = false

-- FlushHeaderAndMeta, behind the first test of the context: the calls it makes, and whether it
-- returns an error. `msync_ok`, `live` and `fdatasync_ok` are the environment's answers.
unfoldable pub flush_header_and_meta :
    Bool → Bool → Bool → Bool → ℕ → FlushMode → Tracker → List SyncCall × Bool
flush_header_and_meta live_before msync_ok live fdatasync_ok data_len mode t =
    let header : SyncCall = msync_header (min t.page_size data_len) in
    if not live_before
    then ([], true)
    else if data_len == 0
    then ([], false)
    else if not msync_ok
    then (header ∷ [], true)
    else if not live
    then (header ∷ [], true)
    else if is_data_only mode
    then (header ∷ [], false)
    else (header ∷ fdatasync (is_full mode) ∷ [], not fdatasync_ok)
