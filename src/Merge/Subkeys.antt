-- ===== src/Merge/Subkeys.antt =====
-- hive/merge/v2/write/subkeymerge.go: merging raw subkey entries. A nil map of deleted references is
-- the one that holds none.
pub mod Order
use hivekit.Common.{ℕ, List, [], ◌∷◌, Bool, not, ltb, ◌==◌, if◌then◌else◌}
use hivekit.Merge.Cells.{RawEntry}

-- The rounds of the loop with `o` at the head of `old`: `rest` goes on behind `o`. With `new` used
-- up it is the loop that drains `old`.
pub merge_at :
    (ℕ → Bool) → RawEntry → (List RawEntry → List RawEntry) → List RawEntry → List RawEntry
merge_at deleted o rest [] = if deleted o.nk_ref then rest [] else o ∷ rest []
merge_at deleted o rest (n ∷ new) =
    let later = merge_at deleted o rest new in
    if deleted o.nk_ref
    then rest (n ∷ new)
    else if ltb o.hash n.hash
    then o ∷ rest (n ∷ new)
    else if ltb n.hash o.hash
    then n ∷ later
    else if o.nk_ref == n.nk_ref
    then n ∷ rest new
    else o ∷ rest (n ∷ new)

pub merge_sorted_raw_entries : (ℕ → Bool) → List RawEntry → List RawEntry → List RawEntry
unfolding merge_at
merge_sorted_raw_entries deleted [] new = new
merge_sorted_raw_entries deleted (o ∷ old) new =
    merge_at deleted o (merge_sorted_raw_entries deleted old) new

pub filter_deleted : (ℕ → Bool) → List RawEntry → List RawEntry
filter_deleted deleted [] = []
filter_deleted deleted (r ∷ old) =
    if not (deleted r.nk_ref) then r ∷ filter_deleted deleted old else filter_deleted deleted old
