-- ===== src/Merge/Subkeys/Order.antt =====
-- What merging keeps: the order by hash, and the references.
use hivekit.Common.{ℕ, ◌≤◌, ◌≡◌, refl, arith, List, [], ◌∷◌, Bool, false, not, ◌&&◌, ◌||◌, ◌==◌}
use hivekit.Merge.Cells.{RawEntry}
use hivekit.Merge.Subkeys.{merge_at, merge_sorted_raw_entries, filter_deleted}

-- The hashes go up from `lo` on.
abbrev pub Ascending : ℕ → List RawEntry → Type 0
Ascending lo [] = Unit {0}
Ascending lo (e ∷ es) = (lo ≤ e.hash) × Ascending e.hash es

Ascending-le : (lo hi : ℕ) (es : List RawEntry) → lo ≤ hi → Ascending hi es → Ascending lo es
Ascending-le lo hi [] h a = tt
Ascending-le lo hi (e ∷ es) h (p, a) = (omega arith, a)

module _ (deleted : ℕ → Bool) (o : RawEntry) (old : List RawEntry)
    (rest : List RawEntry → List RawEntry)
    (kept : (lo : ℕ) (new : List RawEntry)
      → Ascending lo old
      → Ascending lo new
      → Ascending lo (rest new)) where
  merge_at-Ascending :
      (lo : ℕ) (new : List RawEntry)
      → lo ≤ o.hash
      → Ascending o.hash old
      → Ascending lo new
      → Ascending lo (merge_at deleted o rest new)
  unfolding merge_at
  merge_at-Ascending lo [] h a b =
      ground (arith, kept lo [] (Ascending-le lo o.hash old h a) tt, kept o.hash [] a tt)
  merge_at-Ascending lo (n ∷ new) h a (p, b) = ground (
    arith,
    kept lo (n ∷ new) (Ascending-le lo o.hash old h a) (p, b),
    kept o.hash (n ∷ new) a,
    merge_at-Ascending n.hash new,
    kept n.hash new,
    Ascending-le n.hash o.hash old,
  )

-- Merging raw entries that are sorted by hash gives entries sorted by hash, whatever is deleted.
merge_sorted_raw_entries-Ascending :
    (deleted : ℕ → Bool) (old new : List RawEntry) (lo : ℕ)
    → Ascending lo old
    → Ascending lo new
    → Ascending lo (merge_sorted_raw_entries deleted old new)
unfolding merge_sorted_raw_entries
merge_sorted_raw_entries-Ascending deleted [] new lo a b = b
merge_sorted_raw_entries-Ascending deleted (o ∷ old) new lo (p, a) b =
    merge_at-Ascending deleted o old (merge_sorted_raw_entries deleted old)
      (λ lo' new' a' b'. merge_sorted_raw_entries-Ascending deleted old new' lo' a' b') lo new p a b

has_ref : ℕ → List RawEntry → Bool
has_ref r [] = false
has_ref r (e ∷ es) = (e.nk_ref == r) || has_ref r es

merge_at-has_ref :
    (deleted : ℕ → Bool) (o : RawEntry) (old : List RawEntry) (rest : List RawEntry → List RawEntry)
    (r : ℕ) (new : List RawEntry)
    → ((new : List RawEntry) → has_ref r (rest new) ≡ has_ref r old || has_ref r new)
    → has_ref r (merge_at deleted o rest new)
      ≡ ((not (deleted o.nk_ref) && (o.nk_ref == r)) || has_ref r old) || has_ref r new
unfolding merge_at has_ref
merge_at-has_ref deleted o old rest r [] h = ground (arith, h [])
merge_at-has_ref deleted o old rest r (n ∷ new) h =
    ground (arith, h (n ∷ new), h new, merge_at-has_ref deleted o old rest r new h)

-- A reference is among the merged raw entries exactly when it is among the new ones or among the
-- old ones that are not deleted: merging loses no reference and brings in none.
has_ref-merge_sorted_raw_entries :
    (deleted : ℕ → Bool) (old new : List RawEntry) (r : ℕ)
    → has_ref r (merge_sorted_raw_entries deleted old new)
      ≡ has_ref r (filter_deleted deleted old) || has_ref r new
unfolding merge_sorted_raw_entries has_ref filter_deleted
has_ref-merge_sorted_raw_entries deleted [] new r = refl
has_ref-merge_sorted_raw_entries deleted (o ∷ old) new r = ground (
  arith,
  merge_at-has_ref deleted o (filter_deleted deleted old) (merge_sorted_raw_entries deleted old) r
      new (λ new'. has_ref-merge_sorted_raw_entries deleted old new' r),
)
