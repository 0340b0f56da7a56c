-- ===== src/Regmerge/Paths/Ancestors.antt =====
-- Which paths the walk over the ancestors finds.
use hivekit.Common.{
  ℕ, zero, suc, ◌<◌, ◌≡◌, refl, arith, List, [], ◌∷◌, Bool, true, false, Option, none, some, not,
  ◌&&◌, ◌||◌, length, take, ◌==◌, inl, inr, Option-cases,
}
use hivekit.Common.Bytes.{Bytes}
use hivekit.Common.Text.{backslash}
use hivekit.Format.Consts.{bytes_equal}
use hivekit.Regmerge.Paths.{last_index, is_deleted, at_index, walk_ancestors, is_under_deleted}

-- `d` and a backslash are the start of `path`.
unfoldable pub is_ancestor : Bytes → Bytes → Bool
is_ancestor d [] = false
is_ancestor [] (c ∷ path) = c == backslash
is_ancestor (x ∷ d) (c ∷ path) = (x == c) && is_ancestor d path

is_ancestor-none : (d path : Bytes) → last_index path ≡ none → is_ancestor d path ≡ false
unfolding last_index is_ancestor
is_ancestor-none d [] h = refl
is_ancestor-none [] (c ∷ path) h = elim (Option-cases (last_index path)) [
  | inl e ↦ ground arith
  | inr (i, e) ↦ ground arith
]
is_ancestor-none (x ∷ d) (c ∷ path) h = elim (Option-cases (last_index path)) [
  | inl e ↦ ground (arith, is_ancestor-none d path e)
  | inr (i, e) ↦ ground arith
]

-- Cut at the last backslash: an ancestor is the parent or an ancestor of it.
is_ancestor-parent :
    (d path : Bytes) (i : ℕ)
    → last_index path ≡ some i
    → is_ancestor d path ≡ bytes_equal d (take i path) || is_ancestor d (take i path)
unfolding last_index is_ancestor bytes_equal
is_ancestor-parent d [] i h = ground arith
is_ancestor-parent [] (c ∷ path) i h = elim (Option-cases (last_index path)) [
  | inl e ↦ ground arith
  | inr (j, e) ↦ ground arith
]
is_ancestor-parent (x ∷ d) (c ∷ path) i h = elim (Option-cases (last_index path)) [
  | inl e ↦ ground (arith, is_ancestor-none d path e)
  | inr (j, e) ↦ ground (arith, is_ancestor-parent d path j e)
]

-- A deleted path, not empty, is an ancestor of `path`.
unfoldable pub ancestor_deleted : Bytes → List Bytes → Bool
unfolding is_ancestor
ancestor_deleted path [] = false
ancestor_deleted path (d ∷ deleted) =
    (not (length d == 0) && is_ancestor d path) || ancestor_deleted path deleted

ancestor_deleted-none :
    (path : Bytes) (deleted : List Bytes)
    → last_index path ≡ none
    → ancestor_deleted path deleted ≡ false
unfolding ancestor_deleted
ancestor_deleted-none path [] h = refl
ancestor_deleted-none path (d ∷ deleted) h =
    ground (arith, is_ancestor-none d path h, ancestor_deleted-none path deleted h)

equal_length : (d path : Bytes) → bytes_equal d path ≡ true → length d ≡ length path
unfolding bytes_equal
equal_length [] [] h = refl
equal_length [] (y ∷ path) h = ground arith
equal_length (x ∷ d) [] h = ground arith
equal_length (x ∷ d) (y ∷ path) h = ground (arith, equal_length d path)

longer-bytes_equal : (d : Bytes) → not (length d == 0) && bytes_equal d [] ≡ false
unfolding bytes_equal
longer-bytes_equal [] = ground arith
longer-bytes_equal (x ∷ d) = ground arith

ancestor_deleted-zero :
    (path : Bytes) (deleted : List Bytes)
    → last_index path ≡ some 0
    → ancestor_deleted path deleted ≡ false
unfolding ancestor_deleted is_ancestor
ancestor_deleted-zero path [] h = refl
ancestor_deleted-zero path (d ∷ deleted) h = ground (
  arith,
  is_ancestor-parent d path 0 h,
  longer-bytes_equal d,
  ancestor_deleted-zero path deleted h,
)

ancestor_deleted-parent :
    (path : Bytes) (deleted : List Bytes) (i : ℕ)
    → last_index path ≡ some i
    → 0 < length (take i path)
    → ancestor_deleted path deleted
      ≡ is_deleted (take i path) deleted || ancestor_deleted (take i path) deleted
unfolding ancestor_deleted is_deleted
ancestor_deleted-parent path [] i h g = refl
ancestor_deleted-parent path (d ∷ deleted) i h g = ground (
  arith,
  is_ancestor-parent d path i h,
  equal_length d (take i path),
  ancestor_deleted-parent path deleted i h g,
)

last_index-lt : (path : Bytes) (i : ℕ) → last_index path ≡ some i → i < length path
unfolding last_index
last_index-lt [] i h = ground arith
last_index-lt (c ∷ path) i h = elim (Option-cases (last_index path)) [
  | inl e ↦ ground arith
  | inr (j, e) ↦ ground (arith, last_index-lt path j e)
]

length-take_below : (i : ℕ) (path : Bytes) → i < length path → length (take i path) ≡ i
length-take_below zero path h = omega arith
length-take_below (suc i) [] h = omega arith
length-take_below (suc i) (c ∷ path) h = omega (arith, length-take_below i path)

-- One round, with the answer of the rounds behind it.
round_lem :
    (later : Bytes → Option Bool) (deleted : List Bytes) (path : Bytes)
    → ((i : ℕ)
        → i < length path
        → later (take i path) ≡ some (ancestor_deleted (take i path) deleted))
    → at_index later deleted path (last_index path) ≡ some (ancestor_deleted path deleted)
round_lem later deleted path h = elim (Option-cases (last_index path)) [
  | inl e ↦ rw (e, ancestor_deleted-none path deleted e) refl
  | inr (zero, e) ↦ rw (e, ancestor_deleted-zero path deleted e) refl
  | inr (suc i, e) ↦
      let below = last_index-lt path (suc i) e in
      let cut = length-take_below (suc i) path below in
      ground (arith, ancestor_deleted-parent path deleted (suc i) e (omega arith), h (suc i) below)
]

-- With more fuel than the path is long the walk over the ancestors comes to an answer: whether a
-- deleted path that is not empty is an ancestor of the path.
walk_ancestors-returns :
    (fuel : ℕ) (deleted : List Bytes) (path : Bytes)
    → length path < fuel
    → walk_ancestors fuel deleted path ≡ some (ancestor_deleted path deleted)
unfolding walk_ancestors
walk_ancestors-returns zero deleted path h = absurd (omega arith)
walk_ancestors-returns (suc fuel) deleted path h =
    round_lem (walk_ancestors fuel deleted) deleted path (λ i below.
      walk_ancestors-returns fuel deleted (take i path)
        (omega (arith, length-take_below i path below)))

-- A path is under a deleted one exactly when it is deleted itself or a deleted path, not empty, is
-- its ancestor.
pub is_under_deleted-eq :
    (path : Bytes) (deleted : List Bytes)
    → is_under_deleted path deleted ≡ is_deleted path deleted || ancestor_deleted path deleted
unfolding is_under_deleted
is_under_deleted-eq path deleted =
    rw (walk_ancestors-returns (suc (length path)) deleted path (omega arith)) (ground arith)
