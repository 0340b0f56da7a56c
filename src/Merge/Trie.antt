-- ===== src/Merge/Trie.antt =====
-- hive/merge/v2/trie (build.go, node.go, walk.go), merge.Op of hive/merge/ops.go, and subkeys.Hash of
-- hive/subkeys/hash.go. A string is its bytes. `lower` is strings.ToLower and `unicode_hash` the
-- hash of a name that is not ASCII, which goes by unicode.ToUpper. The children of a node stand in
-- one list, and the binary search of slices.BinarySearchFunc in it is a walk to the same place. The
-- cached hashes and the cached path of an operation are not read here, and are left out.
pub mod Search
pub mod Index
use hivekit.Common.{
  ℕ, zero, suc, ◌+◌, ◌-◌, ◌*◌, ◌%◌, ◌^◌, List, [], ◌∷◌, ◌++◌, Bool, true, false, ◌&&◌, Outcome, ok,
  ◌>>=◌, ltb, leb, if◌then◌else◌,
}
use hivekit.Common.Bytes.{Bytes}
use hivekit.Format.Consts.{Error, invalid_offset}
use hivekit.Merge.Names.{name_lt}

-- An OpType: any other number is no operation.
pub data OpType : Type 0 where
  op_ensure_key op_delete_key op_set_value op_delete_value : OpType
  op_other : ℕ → OpType

pub record Op : Type 0 where
  pub type : OpType
  pub key_path : List Bytes
  pub value_name : Bytes
  pub value_type : ℕ
  pub content : Bytes

pub record ValueOp : Type 0 where
  pub name : Bytes
  pub type : ℕ
  pub content : Bytes
  pub delete : Bool

-- The fields of a Node but its children.
pub record Info : Type 0 where
  pub name : Bytes
  pub name_lower : Bytes
  pub hash : ℕ
  pub values : List ValueOp
  pub delete_key : Bool
  pub ensure_key : Bool
  pub cell_idx : ℕ
  pub exists : Bool
  pub sk_cell_idx : ℕ
  pub sub_key_list_ref : ℕ
  pub sub_key_count : ℕ
  pub value_list_ref : ℕ
  pub value_count : ℕ

mutual
  pub data Node : Type 0 where
    node : Info → Children → Node

  pub data Children : Type 0 where
    no_children : Children
    child : Node → Children → Children

abbrev pub info : Node → Info
info (node i cs) = i

abbrev pub children : Node → Children
children (node i cs) = cs

-- subkeys.Hash from a byte on: none behind a byte that is not ASCII.
abbrev hash_from : (Bytes → ℕ) → Bytes → Bytes → ℕ → ℕ
hash_from unicode_hash whole [] hash = hash
hash_from unicode_hash whole (b ∷ name) hash =
    let rest =
      hash_from unicode_hash whole name
        ((hash * 37 + (if leb b'a' b && leb b b'z' then b - 32 else b)) % 2 ^ 32) in
    if ltb 0x7F b then unicode_hash whole else rest

subkey_hash : (Bytes → ℕ) → Bytes → ℕ
subkey_hash unicode_hash name = hash_from unicode_hash name name 0

abbrev pub value_op : Op → Bool → ValueOp
value_op op true = record { name = op.value_name; type = 0; content = []; delete = true }
value_op op false = record {
  name = op.value_name;
  type = op.value_type;
  content = op.content;
  delete = false;
}

abbrev pub attach_info : OpType → Op → Info → Info
attach_info op_ensure_key op i = record i { ensure_key = true }
attach_info op_delete_key op i = record i { delete_key = true }
attach_info op_set_value op i = record i { values = i.values ++ (value_op op false ∷ []) }
attach_info op_delete_value op i = record i { values = i.values ++ (value_op op true ∷ []) }
attach_info (op_other n) op i = i

pub attach_op : Op → Node → Node
attach_op op (node i cs) = node (attach_info op.type op i) cs

-- getOrCreateChild, with what is then done to the child.
pub update_child : Bytes → Node → (Node → Node) → Children → Children
update_child key fresh f no_children = child (f fresh) no_children
update_child key fresh f (child n ns) =
    let later = update_child key fresh f ns in
    if name_lt (info n).name_lower key
    then child n later
    else if name_lt key (info n).name_lower
    then child (f fresh) (child n ns)
    else child (f n) ns

-- `var hash uint32`, set for a name that is not empty.
abbrev unless_empty : Bytes → ℕ → ℕ
unless_empty [] hash = 0
unless_empty (c ∷ cs) hash = hash

module _ (lower : Bytes → Bytes) (unicode_hash : Bytes → ℕ) where
  pub new_node : Bytes → ℕ → Node
  unfolding subkey_hash
  new_node name cell_idx =
      node
        record {
          name = name;
          name_lower = lower name;
          hash = unless_empty name (subkey_hash unicode_hash (lower name));
          values = [];
          delete_key = false;
          ensure_key = false;
          cell_idx = cell_idx;
          exists = false;
          sk_cell_idx = 0;
          sub_key_list_ref = 0;
          sub_key_count = 0;
          value_list_ref = 0;
          value_count = 0;
        }
        no_children

  -- The path of one operation, from a node down.
  pub attach_at : Op → List Bytes → Node → Node
  unfolding attach_op update_child new_node
  attach_at op [] n = attach_op op n
  attach_at op (component ∷ path) (node i cs) =
      node i
        (update_child (lower component) (new_node component invalid_offset) (attach_at op path) cs)

  pub build_from : List Op → Node → Node
  unfolding attach_at
  build_from [] root = root
  build_from (op ∷ ops) root = build_from ops (attach_at op op.key_path root)

  pub build : List Op → Node
  unfolding build_from
  build ops = build_from ops (new_node [] invalid_offset)

-- trie.Walk of a root and a function that are not nil: the root itself is not visited.
unfoldable mutual
  pub walk_node : {S : Type 0} → (Node → ℕ → S → Outcome Error S) → Node → ℕ → S → Outcome Error S
  walk_node fn (node i cs) depth s = do
    s1 ← (if ltb 0 depth then fn (node i cs) depth s else ok s)
    walk_children fn cs depth s1

  pub walk_children :
      {S : Type 0} → (Node → ℕ → S → Outcome Error S) → Children → ℕ → S → Outcome Error S
  walk_children fn no_children depth s = ok s
  walk_children fn (child n ns) depth s = do
    s1 ← walk_node fn n (depth + 1) s
    walk_children fn ns depth s1

unfoldable pub walk : {S : Type 0} → Node → (Node → ℕ → S → Outcome Error S) → S → Outcome Error S
unfolding walk_node walk_children
walk root fn s = walk_node fn root 0 s
