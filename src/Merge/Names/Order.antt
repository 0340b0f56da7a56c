-- ===== src/Merge/Names/Order.antt =====
-- The order that merging by name keeps.
use hivekit.Common.{ℕ, ◌≡◌, refl, arith, List, [], ◌∷◌, Bool, true, not}
use hivekit.Common.Bytes.{Bytes}
use hivekit.Merge.Names.{Entry, name_lt, merge_name_at, merge_sorted_entries}

-- `a` is not behind `b`.
abbrev pub not_behind : Bytes → Bytes → Bool
not_behind a b = not (name_lt b a)

pub name_lt-not_behind : (a b : Bytes) → name_lt a b ≡ true → not_behind a b ≡ true
unfolding name_lt
name_lt-not_behind [] [] h = cc
name_lt-not_behind [] (y ∷ b) h = refl
name_lt-not_behind (x ∷ a) [] h = cc
name_lt-not_behind (x ∷ a) (y ∷ b) h = ground (arith, name_lt-not_behind a b)

pub not_behind_trans :
    (a b c : Bytes) → not_behind a b ≡ true → not_behind b c ≡ true → not_behind a c ≡ true
unfolding name_lt
not_behind_trans [] b [] h k = refl
not_behind_trans [] b (z ∷ c) h k = refl
not_behind_trans (x ∷ a) [] c h k = cc
not_behind_trans (x ∷ a) (y ∷ b) [] h k = cc
not_behind_trans (x ∷ a) (y ∷ b) (z ∷ c) h k = ground (arith, not_behind_trans a b c)

-- The names go up from `lo` on.
abbrev pub NamesAscending : Bytes → List Entry → Type 0
NamesAscending lo [] = Unit {0}
NamesAscending lo (e ∷ es) = (not_behind lo e.name_lower ≡ true) × NamesAscending e.name_lower es

NamesAscending-trans :
    (lo hi : Bytes) (es : List Entry)
    → not_behind lo hi ≡ true
    → NamesAscending hi es
    → NamesAscending lo es
NamesAscending-trans lo hi [] h a = tt
NamesAscending-trans lo hi (e ∷ es) h (p, a) = (not_behind_trans lo hi e.name_lower h p, a)

module _ (deleted : ℕ → Bool) (o : Entry) (old : List Entry) (rest : List Entry → List Entry)
    (kept : (lo : Bytes) (new : List Entry)
      → NamesAscending lo old
      → NamesAscending lo new
      → NamesAscending lo (rest new)) where
  merge_name_at-NamesAscending :
      (lo : Bytes) (new : List Entry)
      → not_behind lo o.name_lower ≡ true
      → NamesAscending o.name_lower old
      → NamesAscending lo new
      → NamesAscending lo (merge_name_at deleted o rest new)
  unfolding merge_name_at
  merge_name_at-NamesAscending lo [] h a b = ground (
    arith,
    kept lo [] (NamesAscending-trans lo o.name_lower old h a) tt,
    kept o.name_lower [] a tt,
  )
  merge_name_at-NamesAscending lo (n ∷ new) h a (p, b) = ground (
    arith,
    kept lo (n ∷ new) (NamesAscending-trans lo o.name_lower old h a) (p, b),
    kept o.name_lower (n ∷ new) a,
    name_lt-not_behind o.name_lower n.name_lower,
    name_lt-not_behind n.name_lower o.name_lower,
    merge_name_at-NamesAscending n.name_lower new,
    kept n.name_lower new,
    NamesAscending-trans n.name_lower o.name_lower old,
  )

pub merge_sorted_entries-NamesAscending :
    (deleted : ℕ → Bool) (old new : List Entry) (lo : Bytes)
    → NamesAscending lo old
    → NamesAscending lo new
    → NamesAscending lo (merge_sorted_entries deleted old new)
unfolding merge_sorted_entries
merge_sorted_entries-NamesAscending deleted [] new lo a b = b
merge_sorted_entries-NamesAscending deleted (o ∷ old) new lo (p, a) b =
    merge_name_at-NamesAscending deleted o old (merge_sorted_entries deleted old)
      (λ lo' new' a' b'. merge_sorted_entries-NamesAscending deleted old new' lo' a' b') lo new p a
      b
