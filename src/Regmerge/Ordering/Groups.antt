-- ===== src/Regmerge/Ordering/Groups.antt =====
-- The groups that the operations are sorted in: one for each path, with the operations of that path.
use mathlib.Core.List.{Permᴰ}
use hivekit.Common.{
  ◌≡◌, ◌<◌, refl, ◌∙◌, arith, List, [], ◌∷◌, ◌++◌, All, true, false, ◌||◌, length, ltb, ◌==◌,
  if-both,
}
use hivekit.Common.Bytes.{Bytes}
use hivekit.Common.Sorting.{All-append, All-perm, Pairwise, Sorted, IsSorter, Pairwise-perm}
use hivekit.Format.Consts.{bytes_equal, bytes_equal_self, bytes_equal_comm}
use hivekit.Merge.Names.{name_lt}
use hivekit.Regmerge.Paths.Ancestors.{is_ancestor}
use hivekit.Regmerge.Ordering.{
  EditOp, get_op_path, OpGroup, count_backslashes, add_op, group_ops, group_less, op_less, sort_ops,
}

-- The operations of a group are those of its path.
pub record IsHome (normalize : Bytes → Bytes) (g : OpGroup) : Type 0 where
  pub depth : g.depth ≡ count_backslashes g.path
  pub paths : All (λ op. bytes_equal g.path (get_op_path normalize op) ≡ true) g.ops

-- Two groups have different paths.
abbrev pub Apart : OpGroup → OpGroup → Type 0
Apart g h = bytes_equal g.path h.path ≡ false

module _ (normalize : Bytes → Bytes) (op : EditOp) where
  new_group-IsHome : IsHome normalize (record {
    path = get_op_path normalize op;
    depth = count_backslashes (get_op_path normalize op);
    ops = op ∷ [];
  })
  new_group-IsHome = record {
    depth = refl;
    paths = (bytes_equal_self (get_op_path normalize op), tt);
  }

  grown_group-IsHome :
      (g : OpGroup)
      → IsHome normalize g
      → bytes_equal g.path (get_op_path normalize op) ≡ true
      → IsHome normalize (record g { ops = g.ops ++ (op ∷ []) })
  grown_group-IsHome g h e = record {
    depth = h.depth;
    paths = All-append _ g.ops (op ∷ []) h.paths (e, tt);
  }

  add_op-IsHome :
      (groups : List OpGroup)
      → All (IsHome normalize) groups
      → All (IsHome normalize) (add_op op (get_op_path normalize op) groups)
  unfolding add_op
  add_op-IsHome [] h = (new_group-IsHome, tt)
  add_op-IsHome (g ∷ groups) h =
      if-both (All (IsHome normalize)) (bytes_equal g.path (get_op_path normalize op))
        (λ e. (grown_group-IsHome g h.0 e, h.1)) (λ e. (h.0, add_op-IsHome groups h.1))

  -- A group apart from all groups and from the new path stays so.
  add_op-AllApart :
      (f : OpGroup) (groups : List OpGroup)
      → bytes_equal f.path (get_op_path normalize op) ≡ false
      → All (Apart f) groups
      → All (Apart f) (add_op op (get_op_path normalize op) groups)
  unfolding add_op
  add_op-AllApart f [] e h = (e, tt)
  add_op-AllApart f (g ∷ groups) e h =
      if-both (All (Apart f)) (bytes_equal g.path (get_op_path normalize op)) (λ k. h)
        (λ k. (h.0, add_op-AllApart f groups e h.1))

  add_op-Apart :
      (groups : List OpGroup)
      → Pairwise Apart groups
      → Pairwise Apart (add_op op (get_op_path normalize op) groups)
  unfolding add_op
  add_op-Apart [] h = (tt, tt)
  add_op-Apart (g ∷ groups) h =
      if-both (Pairwise Apart) (bytes_equal g.path (get_op_path normalize op)) (λ k. h)
        (λ k. (add_op-AllApart g groups k h.0, add_op-Apart groups h.1))

module _ (normalize : Bytes → Bytes) where
  pub group_ops-IsHome :
      (ops : List EditOp) (groups : List OpGroup)
      → All (IsHome normalize) groups
      → All (IsHome normalize) (group_ops normalize ops groups)
  unfolding group_ops
  group_ops-IsHome [] groups h = h
  group_ops-IsHome (op ∷ ops) groups h =
      group_ops-IsHome ops (add_op op (get_op_path normalize op) groups)
        (add_op-IsHome normalize op groups h)

  pub group_ops-Apart :
      (ops : List EditOp) (groups : List OpGroup)
      → Pairwise Apart groups
      → Pairwise Apart (group_ops normalize ops groups)
  unfolding group_ops
  group_ops-Apart [] groups h = h
  group_ops-Apart (op ∷ ops) groups h =
      group_ops-Apart ops (add_op op (get_op_path normalize op) groups)
        (add_op-Apart normalize op groups h)

pub Apart-flip : (f g : OpGroup) → Apart f g → Apart g f
Apart-flip f g e = bytes_equal_comm g.path f.path ∙ e

pub Apart-perm : {xs ys : List OpGroup} → Permᴰ xs ys → Pairwise Apart xs → Pairwise Apart ys
Apart-perm p h = Pairwise-perm Apart Apart-flip p h

pub sort_ops-IsHome :
    (normalize : Bytes → Bytes) (sort_slice : List EditOp → List EditOp) (g : OpGroup)
    → IsSorter op_less sort_slice
    → IsHome normalize g
    → All (λ op. bytes_equal g.path (get_op_path normalize op) ≡ true) (sort_ops sort_slice g)
unfolding sort_ops
sort_ops-IsHome normalize sort_slice g s h =
    if-both (All (λ op. bytes_equal g.path (get_op_path normalize op) ≡ true))
      (ltb 1 (length g.ops)) (λ e. All-perm _ (s.permutes g.ops) h.paths) (λ e. h.paths)

short-Sorted : (ops : List EditOp) → ltb 1 (length ops) ≡ false → Sorted op_less ops
short-Sorted [] h = tt
short-Sorted (op ∷ []) h = (tt, tt)
short-Sorted (op ∷ o ∷ ops) h = ground arith

pub sort_ops-Sorted :
    (sort_slice : List EditOp → List EditOp) (g : OpGroup)
    → IsSorter op_less sort_slice
    → Sorted op_less (sort_ops sort_slice g)
unfolding sort_ops
sort_ops-Sorted sort_slice g s =
    if-both (Sorted op_less) (ltb 1 (length g.ops)) (λ e. s.sorted g.ops) (short-Sorted g.ops)

is_ancestor-count :
    (d path : Bytes) → is_ancestor d path ≡ true → count_backslashes d < count_backslashes path
unfolding is_ancestor count_backslashes
is_ancestor-count d [] h = ground arith
is_ancestor-count [] (c ∷ path) h = ground arith
is_ancestor-count (x ∷ d) (c ∷ path) h = ground (arith, is_ancestor-count d path)

root_first :
    (a b : Bytes)
    → (length a == 0) ≡ true
    → bytes_equal a b ≡ false
    → (name_lt a b ≡ true) × (count_backslashes a ≡ 0)
unfolding name_lt count_backslashes bytes_equal
root_first [] [] h e = cc
root_first [] (y ∷ b) h e = (refl, refl)
root_first (x ∷ a) b h e = ground arith

-- The group of an ancestor, or of the root, comes before the group of another path.
pub ancestor-group_less :
    (normalize : Bytes → Bytes) (f g : OpGroup)
    → IsHome normalize f
    → IsHome normalize g
    → (length f.path == 0) || is_ancestor f.path g.path ≡ true
    → bytes_equal f.path g.path ≡ false
    → group_less f g ≡ true
unfolding group_less
ancestor-group_less normalize f g hf hg h e =
    ground (arith, hf.depth, hg.depth, is_ancestor-count f.path g.path, root_first f.path g.path)
