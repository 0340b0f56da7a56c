-- ===== src/Tests/Pages.antt =====
-- hive/dirty at concrete inputs.
use hivekit.Common.{◌≡◌, refl, arith, [], ◌∷◌, none, true, false}
use hivekit.Dirty.{
  Range, Tracker, Answer, done, add, new_tracker, align, coalesce, flush_data_only, flush_loop,
}
use hivekit.Dirty.Coalesce.{covered}
use hivekit.Dirty.Flush.{flush_data_only-syncs, header_swallows_neighbour}

-- Two ranges, out of order, on pages that touch.
abbrev two_ranges : Tracker
two_ranges = record {
  ranges = record { off = 8200; len = 10 } ∷ record { off = 4100; len = 20 } ∷ [];
  page_size = 4096;
}

abbrev all_done : Range → Answer
all_done r = done

flush_data_only-syncs_example :
    (covered (flush_data_only false all_done 12288 two_ranges).synced 4110 ≡ true)
    × ((flush_data_only false all_done 12288 two_ranges).tracker.ranges ≡ [])
unfolding covered flush_data_only flush_loop coalesce align
flush_data_only-syncs_example =
    flush_data_only-syncs false all_done 12288 two_ranges 4110 (omega arith) refl
      ((omega arith, omega arith), ((omega arith, omega arith), tt)) refl refl

header_swallows_neighbour_example :
    ((flush_data_only false all_done 12288 (add (add new_tracker 0 4096) 4096 64)).synced ≡ [])
    × ((flush_data_only false all_done 12288 (add (add new_tracker 0 4096) 4096 64)).error ≡ none)
    × ((flush_data_only false all_done 12288 (add (add new_tracker 0 4096) 4096 64)).tracker.ranges
        ≡ [])
header_swallows_neighbour_example =
    header_swallows_neighbour all_done 12288 64 (omega arith) (omega arith) (λ r. refl)
