-- ===== src/Merge/Trie/Index.antt =====
-- The trie as an index of the operations by their path.
use hivekit.Common.{
  ℕ, ◌≡◌, refl, sym, ap, ◌∙◌, arith, List, [], ◌∷◌, ◌++◌, map, Bool, true, false, ◌&&◌, ◌||◌,
  Option, none, some, Bool-cases, if-both, inl, inr, if◌then◌else◌,
}
use hivekit.Common.Bytes.{Bytes}
use hivekit.Format.Consts.{bytes_equal, bytes_equal-≡, invalid_offset}
use hivekit.Merge.Trie.{
  OpType, op_ensure_key, op_delete_key, op_set_value, op_delete_value, op_other, Op, ValueOp,
  value_op, Node, node, Children, no_children, child, Info, info, attach_info, attach_op, new_node,
  attach_at, build_from, build,
}
use hivekit.Merge.Trie.Search.{
  key_of, IsTrie, IsSortedTries, find_child, or_fresh, find_child-update_child,
  update_child-IsSortedTries,
}

abbrev below : (Node → Option Node) → Option Node → Option Node
below next none = none
below next (some n) = next n

-- The node at a path of lower-case names.
pub find : List Bytes → Node → Option Node
find [] n = some n
find (key ∷ path) (node i cs) = below (find path) (find_child key cs)

-- What a node says of its own key.
pub record Contents : Type 0 where
  pub values : List ValueOp
  pub delete_key : Bool
  pub ensure_key : Bool

abbrev nothing : Contents
nothing = record { values = []; delete_key = false; ensure_key = false }

abbrev of_info : Info → Contents
of_info i = record { values = i.values; delete_key = i.delete_key; ensure_key = i.ensure_key }

abbrev pub contents : Option Node → Contents
contents none = nothing
contents (some n) = of_info (info n)

-- What one operation asks for, alone, and two lists of operations one behind the other.
abbrev asked_by : OpType → Op → Contents
asked_by op_ensure_key op = record { values = []; delete_key = false; ensure_key = true }
asked_by op_delete_key op = record { values = []; delete_key = true; ensure_key = false }
asked_by op_set_value op = record {
  values = value_op op false ∷ [];
  delete_key = false;
  ensure_key = false;
}
asked_by op_delete_value op = record {
  values = value_op op true ∷ [];
  delete_key = false;
  ensure_key = false;
}
asked_by (op_other n) op = nothing

abbrev both : Contents → Contents → Contents
both a b = record {
  values = a.values ++ b.values;
  delete_key = a.delete_key || b.delete_key;
  ensure_key = a.ensure_key || b.ensure_key;
}

abbrev paths_equal : List Bytes → List Bytes → Bool
paths_equal [] [] = true
paths_equal [] (k ∷ q) = false
paths_equal (k ∷ p) [] = false
paths_equal (k ∷ p) (l ∷ q) = bytes_equal k l && paths_equal p q

-- The operations on a path, whatever the case of its letters, in their order.
abbrev pub asked_at : (Bytes → Bytes) → List Bytes → List Op → Contents
asked_at lower path [] = nothing
asked_at lower path (op ∷ ops) =
    if paths_equal (map lower op.key_path) path
    then both (asked_by op.type op) (asked_at lower path ops)
    else asked_at lower path ops

append_nil : (xs : List ValueOp) → xs ++ [] ≡ xs
append_nil [] = refl
append_nil (x ∷ xs) = ap (λ t. x ∷ t) (append_nil xs)

attach_info-both :
    (t : OpType) (op : Op) (i : Info)
    → of_info (attach_info t op i) ≡ both (of_info i) (asked_by t op)
attach_info-both op_ensure_key op i = ground (arith, append_nil i.values)
attach_info-both op_delete_key op i = ground (arith, append_nil i.values)
attach_info-both op_set_value op i = ground arith
attach_info-both op_delete_value op i = ground arith
attach_info-both (op_other n) op i = ground (arith, append_nil i.values)

module _ (lower : Bytes → Bytes) (unicode_hash : Bytes → ℕ) where
  abbrev fresh : Bytes → Node
  fresh component = new_node lower unicode_hash component invalid_offset

  abbrev attach : Op → List Bytes → Node → Node
  attach = attach_at lower unicode_hash

  fresh_key : (component : Bytes) → key_of (fresh component) ≡ lower component
  unfolding new_node
  fresh_key component = refl

  fresh-IsTrie : (component : Bytes) → IsTrie (fresh component)
  unfolding new_node IsTrie
  fresh-IsTrie component = tt

  contents-find-fresh :
      (component : Bytes) (q : List Bytes) → contents (find q (fresh component)) ≡ nothing
  unfolding new_node find
  contents-find-fresh component [] = refl
  contents-find-fresh component (k ∷ q) = refl

  attach_info_key :
      (t : OpType) (op : Op) (i : Info) → (attach_info t op i).name_lower ≡ i.name_lower
  attach_info_key op_ensure_key op i = refl
  attach_info_key op_delete_key op i = refl
  attach_info_key op_set_value op i = refl
  attach_info_key op_delete_value op i = refl
  attach_info_key (op_other n) op i = refl

  attach_key : (op : Op) (path : List Bytes) (n : Node) → key_of (attach op path n) ≡ key_of n
  unfolding attach_at attach_op
  attach_key op [] (node i cs) = attach_info_key op.type op i
  attach_key op (component ∷ path) (node i cs) = refl

  attach-IsTrie : (op : Op) (path : List Bytes) (n : Node) → IsTrie n → IsTrie (attach op path n)
  unfolding attach_at attach_op IsTrie
  attach-IsTrie op [] (node i cs) h = h
  attach-IsTrie op (component ∷ path) (node i cs) h =
      update_child-IsSortedTries (lower component) (fresh component) (attach op path)
        (fresh_key component) (attach_key op path) cs
        (attach-IsTrie op path (fresh component) (fresh-IsTrie component))
        (λ n t. attach-IsTrie op path n t) h

  or_fresh-IsTrie :
      (key : Bytes) (component : Bytes) (cs : Children)
      → IsSortedTries cs
      → IsTrie (or_fresh (find_child key cs) (fresh component))
  unfolding IsTrie
  or_fresh-IsTrie key component no_children h = fresh-IsTrie component
  or_fresh-IsTrie key component (child n ns) (t, above, h) =
      if-both (λ (o : Option Node). IsTrie (or_fresh o (fresh component)))
        (bytes_equal (key_of n) key) (λ e. t) (λ e. or_fresh-IsTrie key component ns h)

  contents-or_fresh :
      (component : Bytes) (q : List Bytes) (o : Option Node)
      → contents (find q (or_fresh o (fresh component))) ≡ contents (below (find q) o)
  contents-or_fresh component q none = contents-find-fresh component q
  contents-or_fresh component q (some n) = refl

  -- What one operation changes: the contents at its own path.
  contents-attach :
      (op : Op) (path q : List Bytes) (n : Node)
      → IsTrie n
      → contents (find q (attach op path n)) ≡ (
          if paths_equal (map lower path) q
          then both (contents (find q n)) (asked_by op.type op)
          else contents (find q n))
  unfolding attach_at attach_op find IsTrie
  contents-attach op [] [] (node i cs) h = attach_info-both op.type op i
  contents-attach op [] (k ∷ q) (node i cs) h = refl
  contents-attach op (component ∷ path) [] (node i cs) h = refl
  contents-attach op (component ∷ path) (k ∷ q) (node i cs) h =
      let key : Bytes = lower component in
      let old : Node = or_fresh (find_child key cs) (fresh component) in
      let found =
        find_child-update_child key (fresh component) (attach op path) (fresh_key component)
          (attach_key op path) k cs h in
      let ih = contents-attach op path q old (or_fresh-IsTrie key component cs h) in
      let was = contents-or_fresh component q (find_child key cs) in
      elim (Bool-cases (bytes_equal key k)) [
        | inl here ↦
            let same : find_child key cs ≡ find_child k cs =
              ap (λ z. find_child z cs) (bytes_equal-≡ key k here) in
            ap (λ o. contents (below (find q) o)) found ∙ rw here (ih ∙ rw (was, same) refl)
        | inr other ↦ ap (λ o. contents (below (find q) o)) found ∙ rw other refl
      ]

append_assoc : (xs ys zs : List ValueOp) → (xs ++ ys) ++ zs ≡ xs ++ (ys ++ zs)
append_assoc [] ys zs = refl
append_assoc (x ∷ xs) ys zs = ap (λ t. x ∷ t) (append_assoc xs ys zs)

both-nothing : (a : Contents) → both a nothing ≡ a
both-nothing a = ground (arith, append_nil a.values)

both_assoc : (a b d : Contents) → both (both a b) d ≡ both a (both b d)
both_assoc a b d = ground (arith, append_assoc a.values b.values d.values)

module _ (lower : Bytes → Bytes) (unicode_hash : Bytes → ℕ) where
  build_from-IsTrie :
      (ops : List Op) (n : Node) → IsTrie n → IsTrie (build_from lower unicode_hash ops n)
  unfolding build_from
  build_from-IsTrie [] n h = h
  build_from-IsTrie (op ∷ ops) n h =
      build_from-IsTrie ops (attach_at lower unicode_hash op op.key_path n)
        (attach-IsTrie lower unicode_hash op op.key_path n h)

  contents-build_from :
      (ops : List Op) (q : List Bytes) (n : Node)
      → IsTrie n
      → contents (find q (build_from lower unicode_hash ops n))
        ≡ both (contents (find q n)) (asked_at lower q ops)
  unfolding build_from
  contents-build_from [] q n h = sym (both-nothing (contents (find q n)))
  contents-build_from (op ∷ ops) q n h =
      let n1 : Node = attach_at lower unicode_hash op op.key_path n in
      let ih = contents-build_from ops q n1 (attach-IsTrie lower unicode_hash op op.key_path n h) in
      let one = contents-attach lower unicode_hash op op.key_path q n h in
      let before : Contents = contents (find q n) in
      let rest : Contents = asked_at lower q ops in
      elim (Bool-cases (paths_equal (map lower op.key_path) q)) [
        | inl here ↦
            let now : contents (find q n1) ≡ both before (asked_by op.type op) =
              one ∙ rw here refl in
            ih
            ∙ ap (λ z. both z rest) now
            ∙ both_assoc before (asked_by op.type op) rest
            ∙ rw here refl
        | inr other ↦
            let now : contents (find q n1) ≡ before = one ∙ rw other refl in
            ih ∙ ap (λ z. both z rest) now ∙ rw other refl
      ]

  -- Whatever strings.ToLower is, the trie that Build makes of a list of operations is sorted
  -- without duplicates at every node, and at the node of a path stands what the operations on that
  -- path ask for, whatever the case of their letters: the values in their order, and whether the
  -- key is to be created or deleted.
  pub build-asked_at :
      (ops : List Op) (path : List Bytes)
      → IsTrie (build lower unicode_hash ops)
        × (contents (find path (build lower unicode_hash ops)) ≡ asked_at lower path ops)
  unfolding build
  build-asked_at ops path = (
    build_from-IsTrie ops (fresh lower unicode_hash []) (fresh-IsTrie lower unicode_hash []),
    contents-build_from ops path (fresh lower unicode_hash []) (fresh-IsTrie lower unicode_hash [])
        ∙ ap (λ z. both z (asked_at lower path ops))
            (contents-find-fresh lower unicode_hash [] path),
  )
