-- ===== src/Merge/Plan/Balance.antt =====
-- The total of Estimate is that of its manifest.
use hivekit.Common.{
  ℕ, ◌+◌, ◌-◌, ◌*◌, ◌%◌, ◌^◌, ◌≤◌, ◌<◌, ◌≡◌, ◌⊎◌, inl, inr, refl, ap, ◌∙◌, arith, List, [], ◌∷◌,
  ◌++◌, All, Bool, true, false, not, ◌&&◌, Outcome, ok, err, ◌>>=◌, refuse-passes, Bool-cases,
  length, ltb, if◌then◌else◌, if-both,
}
use hivekit.Format.Consts.{
  Error, no_space, cell_header_size, vk_min_size, nk_min_size, list_header_size,
}
use hivekit.Format.Align.{align8}
use hivekit.Merge.Trie.{
  Node, Children, no_children, child, node, info, Info, children, ValueOp, walk_node, walk_children,
  walk,
}
use hivekit.Merge.Plan.{
  CellKind, count_vk, needs_nk, with_nk, new_child_count, AllocEntry, SpacePlan, Estimation,
  add_cell, add_values, rebuild, visit, estimate, no_plan, checked_total,
}

abbrev pub sum_sizes : List AllocEntry → ℕ
sum_sizes [] = 0
sum_sizes (e ∷ es) = e.size + sum_sizes es

-- A whole cell.
abbrev pub IsCellSize : AllocEntry → Type 0
IsCellSize e = (e.size % 8 ≡ 0) × (8 ≤ e.size)

sum_sizes-append : (xs ys : List AllocEntry) → sum_sizes (xs ++ ys) ≡ sum_sizes xs + sum_sizes ys
sum_sizes-append [] ys = omega arith
sum_sizes-append (x ∷ xs) ys = omega (arith, sum_sizes-append xs ys)

All-append :
    (P : AllocEntry → Type 0) (xs ys : List AllocEntry) → All P xs → All P ys → All P (xs ++ ys)
All-append P [] ys h k = k
All-append P (x ∷ xs) ys h k = (h.0, All-append P xs ys h.1 k)

-- The total is too large, or it is the sum of the manifest's sizes.
abbrev Balanced : Estimation → Type 0
Balanced e =
    (2 ^ 31 ≤ e.total) ⊎ ((e.total ≡ sum_sizes e.sp.manifest) × All IsCellSize e.sp.manifest)

add_cell-Balanced :
    (owner : Node) (kind : CellKind) (size : ℕ) (e : Estimation)
    → 4 ≤ size
    → Balanced e
    → Balanced (add_cell owner kind size e)
unfolding add_cell
add_cell-Balanced owner kind size e h (inl large) = inl (omega arith)
add_cell-Balanced owner kind size e h (inr (sum, cells)) =
    elim (Bool-cases (ltb (e.total + align8 size) (2 ^ 31))) [
      | inl fits ↦
          let small : align8 size % 2 ^ 32 ≡ align8 size = ground arith in
          let entry : AllocEntry = record {
            owner = owner;
            kind = kind;
            size = align8 size % 2 ^ 32;
          } in
          inr (
            omega (arith, sum, small, sum_sizes-append e.sp.manifest (entry ∷ [])),
            All-append IsCellSize e.sp.manifest (entry ∷ []) cells
                ((omega (arith, small), omega (arith, small)), tt),
          )
      | inr large ↦ inl (ground arith)
    ]

add_values-Balanced :
    (owner : Node) (vops : List ValueOp) (count : ℕ) (e : Estimation)
    → Balanced e
    → Balanced (add_values owner vops count e).1
unfolding add_values
add_values-Balanced owner [] count e h = h
add_values-Balanced owner (vop ∷ vops) count e h =
    let with_vk : Estimation =
      count_vk
        (add_cell owner CellKind.cell_vk (cell_header_size + vk_min_size + length vop.name) e) in
    let vk : Balanced with_vk =
      add_cell-Balanced owner CellKind.cell_vk (cell_header_size + vk_min_size + length vop.name) e
        (omega arith) h in
    if-both (λ (r : ℕ × Estimation). Balanced r.1) vop.delete
      (λ t. add_values-Balanced owner vops count e h)
      (λ t. add_values-Balanced owner vops (count + 1) _ (
        if-both Balanced (ltb 4 (length vop.content))
          (λ u.
            add_cell-Balanced owner CellKind.cell_data (cell_header_size + length vop.content)
              with_vk (omega arith) vk)
          (λ u. vk)))

rebuild-Balanced :
    (needed : Bool) (owner : Node) (kind : CellKind) (size : ℕ) (e : Estimation)
    → 4 ≤ size
    → Balanced e
    → Balanced (rebuild needed owner kind size e)
rebuild-Balanced needed owner kind size e large h =
    if-both Balanced needed (λ t. add_cell-Balanced owner kind size e large h) (λ t. h)

visit-Balanced :
    (n : Node) (depth : ℕ) (e : Estimation)
    → Balanced e
    → (e' : Estimation) × (visit n depth e ≡ ok e') × Balanced e'
unfolding visit
visit-Balanced n depth e h =
    let i : Info = info n in
    let values : ℕ × Estimation = add_values n i.values 0 (with_nk n e) in
    let counted : Balanced values.1 = add_values-Balanced n i.values 0 (with_nk n e) nk in
    let new_children : ℕ = new_child_count (children n) in
    (
      _,
      refl,
      rebuild-Balanced (not i.exists && ltb 0 values.0) n CellKind.cell_value_list
          (cell_header_size + 4 * values.0) _ (omega arith)
          (rebuild-Balanced (i.exists && ltb 0 values.0) n CellKind.cell_value_list
            (cell_header_size + 4 * (i.value_count + values.0)) _ (omega arith)
            (rebuild-Balanced (i.exists && ltb 0 new_children) n CellKind.cell_subkey_list
              (cell_header_size + list_header_size + 8 * (i.sub_key_count + new_children)) values.1
              (omega arith) counted)),
    )
  where
    nk : Balanced (with_nk n e)
    nk =
        if-both Balanced (needs_nk n)
          (λ t.
            add_cell-Balanced n CellKind.cell_nk
              (cell_header_size + nk_min_size + length (info n).name) e (omega arith) h)
          (λ t. h)

-- What every visit keeps, and so returns, the walk keeps and returns.
module _ {S : Type 0} (fn : Node → ℕ → S → Outcome Error S) (P : S → Type 0)
    (step : (n : Node) (depth : ℕ) (s : S) → P s → (s' : S) × (fn n depth s ≡ ok s') × P s') where
  at_node :
      (n : Node) (depth : ℕ) (s : S)
      → P s
      → (s' : S) × ((if ltb 0 depth then fn n depth s else ok s) ≡ ok s') × P s'
  at_node n depth s p =
      if-both (λ r. (s' : S) × (r ≡ ok s') × P s') (ltb 0 depth) (λ t. step n depth s p)
        (λ t. (s, refl, p))

  mutual
    unfolding walk_node walk_children

    walk_node-keeps :
        (n : Node) (depth : ℕ) (s : S) → P s → (s' : S) × (walk_node fn n depth s ≡ ok s') × P s'
    walk_node-keeps (node i cs) depth s p =
        let (s1, e1, p1) = at_node (node i cs) depth s p in
        let (s2, e2, p2) = walk_children-keeps cs depth s1 p1 in
        let rest : S → Outcome Error S = walk_children fn cs depth in
        (s2, ap (λ r. r >>= rest) e1 ∙ e2, p2)

    walk_children-keeps :
        (cs : Children) (depth : ℕ) (s : S)
        → P s
        → (s' : S) × (walk_children fn cs depth s ≡ ok s') × P s'
    walk_children-keeps no_children depth s p = (s, refl, p)
    walk_children-keeps (child n ns) depth s p =
        let (s1, e1, p1) = walk_node-keeps n (depth + 1) s p in
        let (s2, e2, p2) = walk_children-keeps ns depth s1 p1 in
        let rest : S → Outcome Error S = walk_children fn ns depth in
        (s2, ap (λ r. r >>= rest) e1 ∙ e2, p2)

abbrev pub TooLarge : Node → Type 0
TooLarge root = estimate root ≡ err no_space

-- On every trie Estimate either refuses the plan as too large or returns one whose total is below
-- 2^31 and the sum of the sizes in its manifest, each of them a positive multiple of eight.
pub estimate-total :
    (root : Node)
    → (TooLarge root)
      ⊎ ((sp : SpacePlan) × (estimate root ≡ ok sp)
          × (sp.total_new_bytes ≡ sum_sizes sp.manifest)
          × All IsCellSize sp.manifest
          × (sp.total_new_bytes < 2 ^ 31))
unfolding estimate walk
estimate-total root =
    let (e, walked, balanced) =
      walk_node-keeps visit Balanced visit-Balanced root 0 (record { total = 0; sp = no_plan })
        (inr (refl, tt)) in
    elim (Bool-cases (ltb (2 ^ 31 - 1) e.total)) [
      | inl large ↦ inl (ap (λ r. r >>= checked_total) walked ∙ refused e large)
      | inr small ↦ inr (counted e small balanced (ap (λ r. r >>= checked_total) walked))
    ]
  where
    refused : (e : Estimation) → ltb (2 ^ 31 - 1) e.total ≡ true → checked_total e ≡ err no_space
    refused e large = rw large refl

    counted :
        (e : Estimation)
        → ltb (2 ^ 31 - 1) e.total ≡ false
        → Balanced e
        → {r : Outcome Error SpacePlan} → r ≡ checked_total e
        → (sp : SpacePlan) × (r ≡ ok sp)
          × (sp.total_new_bytes ≡ sum_sizes sp.manifest)
          × All IsCellSize sp.manifest
          × (sp.total_new_bytes < 2 ^ 31)
    counted e small (inl large) h = absurd (ground arith)
    counted e small (inr (sum, cells)) h =
        let fits : e.total < 2 ^ 31 = ground arith in
        (
          record e.sp { total_new_bytes = e.total % 2 ^ 32 },
          h ∙ refuse-passes _ _ _ small,
          omega (arith, sum, fits),
          cells,
          omega (arith, fits),
        )
