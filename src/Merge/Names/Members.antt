-- ===== src/Merge/Names/Members.antt =====
-- What merging by name keeps: which names are in the merged list, and their order.
use hivekit.Common.{ℕ, ◌≡◌, refl, ap, arith, List, [], ◌∷◌, Bool, false, not, ◌&&◌, ◌||◌}
use hivekit.Common.Bytes.{Bytes}
use hivekit.Format.Consts.{bytes_equal}
use hivekit.Merge.Names.{Entry, name_lt, merge_name_at, merge_sorted_entries}
use hivekit.Merge.Names.Order.{NamesAscending, merge_sorted_entries-NamesAscending}

-- Names of which neither is before the other are the same.
same_name : (a b : Bytes) → name_lt a b ≡ false → name_lt b a ≡ false → a ≡ b
unfolding name_lt
same_name [] [] h k = refl
same_name [] (y ∷ b) h k = cc
same_name (x ∷ a) [] h k = cc
same_name (x ∷ a) (y ∷ b) h k = ground (arith, same_name a b)

equal_name :
    (a b s : Bytes) → name_lt a b ≡ false → name_lt b a ≡ false → bytes_equal a s ≡ bytes_equal b s
equal_name a b s h k = ap (λ c. bytes_equal c s) (same_name a b h k)

-- Whether an entry that is not deleted has the name `s`.
pub has_name : (ℕ → Bool) → Bytes → List Entry → Bool
has_name deleted s [] = false
has_name deleted s (e ∷ es) =
    (not (deleted e.nk_ref) && bytes_equal e.name_lower s) || has_name deleted s es

abbrev pub none_deleted : ℕ → Bool
none_deleted ref = false

merge_name_at-has_name :
    (deleted : ℕ → Bool) (o : Entry) (kept : Bool) (rest : List Entry → List Entry) (s : Bytes)
    (new : List Entry)
    → ((new : List Entry)
        → has_name none_deleted s (rest new) ≡ kept || has_name none_deleted s new)
    → has_name none_deleted s (merge_name_at deleted o rest new)
      ≡ ((not (deleted o.nk_ref) && bytes_equal o.name_lower s) || kept)
        || has_name none_deleted s new
unfolding merge_name_at has_name
merge_name_at-has_name deleted o kept rest s [] h = ground (arith, h [])
merge_name_at-has_name deleted o kept rest s (n ∷ new) h = ground (
  arith,
  h (n ∷ new),
  h new,
  merge_name_at-has_name deleted o kept rest s new h,
  equal_name o.name_lower n.name_lower s,
)

has_name-merge_sorted_entries :
    (deleted : ℕ → Bool) (old new : List Entry) (s : Bytes)
    → has_name none_deleted s (merge_sorted_entries deleted old new)
      ≡ has_name deleted s old || has_name none_deleted s new
unfolding merge_sorted_entries has_name
has_name-merge_sorted_entries deleted [] new s = refl
has_name-merge_sorted_entries deleted (o ∷ old) new s =
    merge_name_at-has_name deleted o (has_name deleted s old) (merge_sorted_entries deleted old) s
      new (λ new'. has_name-merge_sorted_entries deleted old new' s)

-- Merging entries that are sorted by name gives entries sorted by name, whatever is deleted, and a
-- name is in the merged list exactly when a new entry or an old entry that is not deleted has it:
-- merging loses no name and brings in none.
pub merge_sorted_entries_lem :
    (deleted : ℕ → Bool) (old new : List Entry) (lo : Bytes)
    → NamesAscending lo old
    → NamesAscending lo new
    → NamesAscending lo (merge_sorted_entries deleted old new)
      × ((s : Bytes)
          → has_name none_deleted s (merge_sorted_entries deleted old new)
            ≡ has_name deleted s old || has_name none_deleted s new)
merge_sorted_entries_lem deleted old new lo a b = (
  merge_sorted_entries-NamesAscending deleted old new lo a b,
  has_name-merge_sorted_entries deleted old new,
)
