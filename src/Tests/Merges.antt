-- ===== src/Tests/Merges.antt =====
-- hive/merge/v2/write/subkeymerge.go at concrete inputs.
use hivekit.Common.{ℕ, ◌≡◌, ◌==◌, ◌||◌, refl, List, [], ◌∷◌, Bool}
use hivekit.Common.Bytes.{Bytes}
use hivekit.Merge.Cells.{RawEntry}
use hivekit.Merge.Names.{Entry, name_lt, merge_sorted_entries}
use hivekit.Merge.Names.Order.{NamesAscending}
use hivekit.Merge.Names.Members.{has_name, none_deleted, merge_sorted_entries_lem}

abbrev is_four : ℕ → Bool
is_four ref = ref == 4

abbrev old_raw : List RawEntry
old_raw = record { nk_ref = 4; hash = 1 } ∷ record { nk_ref = 5; hash = 6 } ∷ []

abbrev new_raw : List RawEntry
new_raw = record { nk_ref = 6; hash = 2 } ∷ record { nk_ref = 5; hash = 6 } ∷ []

abbrev old_names : List Entry
old_names =
    record { name_lower = b'a' ∷ []; nk_ref = 4; hash = 0; fnv32 = 0 }
    ∷ record { name_lower = b'c' ∷ []; nk_ref = 5; hash = 0; fnv32 = 0 }
    ∷ []

abbrev new_names : List Entry
new_names =
    record { name_lower = b'b' ∷ []; nk_ref = 6; hash = 0; fnv32 = 0 }
    ∷ record { name_lower = b'c' ∷ []; nk_ref = 7; hash = 0; fnv32 = 0 }
    ∷ []

merge_sorted_entries_lem_example :
    NamesAscending [] (merge_sorted_entries is_four old_names new_names)
    × ((s : Bytes)
        → has_name none_deleted s (merge_sorted_entries is_four old_names new_names)
          ≡ has_name is_four s old_names || has_name none_deleted s new_names)
unfolding name_lt
merge_sorted_entries_lem_example =
    merge_sorted_entries_lem is_four old_names new_names [] (refl, (refl, tt)) (refl, (refl, tt))
