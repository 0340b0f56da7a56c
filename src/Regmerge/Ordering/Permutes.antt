-- ===== src/Regmerge/Ordering/Permutes.antt =====
-- Ordering moves operations around; it loses none.
use mathlib.Core.List.Permᴰ
use mathlib.Core.List.{Permᴰ, append_assoc}
use hivekit.Common.{
  refl, subst, List, [], ◌∷◌, ◌++◌, map, true, false, length, leb, ltb, if◌then◌else◌,
}
use hivekit.Common.Bytes.{Bytes}
use hivekit.Common.Sorting.{IsSorter}
use hivekit.Format.Consts.{bytes_equal}
use hivekit.Regmerge.Ordering.{
  EditOp, get_op_path, OpGroup, add_op, group_ops, group_less, op_less, sort_ops, flatten,
  order_ops,
}

-- All operations of the groups.
abbrev grouped : List OpGroup → List EditOp
grouped groups = flatten (map (λ g. g.ops) groups)

append_last-permutes : (op : EditOp) (ops : List EditOp) → Permᴰ (op ∷ ops) (ops ++ (op ∷ []))
append_last-permutes op [] = Permᴰ.refl (op ∷ [])
append_last-permutes op (x ∷ ops) =
    Permᴰ.trans (Permᴰ.swap refl refl) (Permᴰ.cons refl (append_last-permutes op ops))

add_op-permutes :
    (op : EditOp) (path : Bytes) (groups : List OpGroup)
    → Permᴰ (op ∷ grouped groups) (grouped (add_op op path groups))
unfolding add_op flatten
add_op-permutes op path [] = Permᴰ.refl (op ∷ [])
add_op-permutes op path (g ∷ groups) =
    elim (bytes_equal g.path path)
      as (λ b. Permᴰ (op ∷ (g.ops ++ grouped groups)) (
        grouped (
          if b
          then record g { ops = g.ops ++ (op ∷ []) } ∷ groups
          else g ∷ add_op op path groups))) [
            | true ↦ Permᴰ.append_right (grouped groups) (append_last-permutes op g.ops)
            | false ↦
                Permᴰ.trans (Permᴰ.symm (Permᴰ.middle op g.ops (grouped groups)))
                  (Permᴰ.append_left g.ops (add_op-permutes op path groups))
          ]

group_ops-permutes :
    (normalize : Bytes → Bytes) (ops : List EditOp) (groups : List OpGroup)
    → Permᴰ (ops ++ grouped groups) (grouped (group_ops normalize ops groups))
unfolding group_ops
group_ops-permutes normalize [] groups = Permᴰ.refl (grouped groups)
group_ops-permutes normalize (op ∷ ops) groups =
    let path = get_op_path normalize op in
    Permᴰ.trans (Permᴰ.symm (Permᴰ.middle op ops (grouped groups))) (
      Permᴰ.trans (Permᴰ.append_left ops (add_op-permutes op path groups))
        (group_ops-permutes normalize ops (add_op op path groups)))

swap_lists : (xs ys zs : List EditOp) → Permᴰ (xs ++ (ys ++ zs)) (ys ++ (xs ++ zs))
swap_lists xs ys zs =
    subst (λ l. Permᴰ l (ys ++ (xs ++ zs))) (append_assoc xs ys zs)
      (subst (λ l. Permᴰ ((xs ++ ys) ++ zs) l) (append_assoc ys xs zs)
        (Permᴰ.append_right zs (Permᴰ.append_comm xs ys)))

grouped-perm : {xs ys : List OpGroup} → Permᴰ xs ys → Permᴰ (grouped xs) (grouped ys)
unfolding flatten
grouped-perm Permᴰ.nil = Permᴰ.nil
grouped-perm (Permᴰ.cons {a = a} {l₁ = l} {l₂ = m} e d) =
    Permᴰ.trans (Permᴰ.append_left a.ops (grouped-perm d)) (
      subst (λ b. Permᴰ (a.ops ++ grouped m) (b.ops ++ grouped m)) e
        (Permᴰ.refl (a.ops ++ grouped m)))
grouped-perm (Permᴰ.swap {a = a} {b = b} {a' = a'} {b' = b'} {l = l} e₁ e₂) =
    subst (λ c. Permᴰ (a.ops ++ (b.ops ++ grouped l)) (a'.ops ++ (c.ops ++ grouped l))) e₁
      (subst (λ c. Permᴰ (a.ops ++ (b.ops ++ grouped l)) (c.ops ++ (a.ops ++ grouped l))) e₂
        (swap_lists a.ops b.ops (grouped l)))
grouped-perm (Permᴰ.trans d₁ d₂) = Permᴰ.trans (grouped-perm d₁) (grouped-perm d₂)

module _ (sort_slice : List EditOp → List EditOp) (sorter : IsSorter op_less sort_slice) where
  sort_ops-permutes : (g : OpGroup) → Permᴰ g.ops (sort_ops sort_slice g)
  unfolding sort_ops
  sort_ops-permutes g =
      elim (ltb 1 (length g.ops)) as (λ b. Permᴰ g.ops (if b then sort_slice g.ops else g.ops)) [
        | true ↦ sorter.permutes g.ops
        | false ↦ Permᴰ.refl g.ops
      ]

  sorted_groups-permutes :
      (groups : List OpGroup) → Permᴰ (grouped groups) (flatten (map (sort_ops sort_slice) groups))
  unfolding flatten
  sorted_groups-permutes [] = Permᴰ.nil
  sorted_groups-permutes (g ∷ groups) =
      Permᴰ.trans (Permᴰ.append_right (grouped groups) (sort_ops-permutes g))
        (Permᴰ.append_left (sort_ops sort_slice g) (sorted_groups-permutes groups))

  -- Ordering, with sorts that keep the promise of sort.Slice, gives a permutation: no operation is
  -- lost and none comes in.
  pub order_ops-permutes :
      (sort_groups : List OpGroup → List OpGroup) (normalize : Bytes → Bytes) (ops : List EditOp)
      → IsSorter group_less sort_groups
      → Permᴰ ops (order_ops sort_groups sort_slice normalize ops)
  unfolding order_ops
  order_ops-permutes sort_groups normalize ops s =
      elim (leb (length ops) 1)
        as (λ b. Permᴰ ops (
          if b
          then ops
          else flatten (map (sort_ops sort_slice) (sort_groups (group_ops normalize ops []))))) [
            | true ↦ Permᴰ.refl ops
            | false ↦
                let groups = group_ops normalize ops [] in
                Permᴰ.trans (Permᴰ.symm (Permᴰ.append-nil ops)) (
                  Permᴰ.trans (group_ops-permutes normalize ops []) (
                    Permᴰ.trans (grouped-perm (s.permutes groups))
                      (sorted_groups-permutes (sort_groups groups))))
          ]
