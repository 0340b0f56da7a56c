-- ===== src/Tests/Plans.antt =====
-- Tries and plans of the merge engine.
use hivekit.Common.{
  ℕ, ◌+◌, ◌≡◌, refl, arith, List, [], ◌∷◌, map, Bool, true, false, ◌&&◌, ok, length, leb,
  if◌then◌else◌,
}
use hivekit.Common.Bytes.{Bytes}
use mathlib.Core.List.{Permᴰ}
use hivekit.Format.Consts.{invalid_offset}
use hivekit.Alloc.{zeros, Allocator}
use hivekit.Alloc.Bump.{no_bump}
use hivekit.Dirty.{new_tracker}
use hivekit.Merge.Trie.{
  Op, op_ensure_key, op_set_value, Node, node, no_children, child, Info, build, walk_node,
  walk_children, walk,
}
use hivekit.Merge.Trie.Search.{IsTrie}
use hivekit.Merge.Trie.Index.{find, contents, asked_at, build-asked_at}
use hivekit.Merge.Plan.{SpacePlan, cell_nk, estimate, visit, add_values, add_cell}
use hivekit.Merge.Plan.Served.{Serves, estimate-Serves}

abbrev lower_byte : ℕ → ℕ
lower_byte b = if leb b'A' b && leb b b'Z' then b + 32 else b

abbrev lower : Bytes → Bytes
lower name = map lower_byte name

abbrev no_hash : Bytes → ℕ
no_hash name = 0

-- Two operations on one key, with letters of different case.
abbrev two_ops : List Op
two_ops =
    record {
      type = op_ensure_key;
      key_path = (b'A' ∷ []) ∷ (b'b' ∷ []) ∷ [];
      value_name = [];
      value_type = 0;
      content = [];
    }
    ∷ record {
      type = op_set_value;
      key_path = (b'a' ∷ []) ∷ (b'B' ∷ []) ∷ [];
      value_name = b'v' ∷ [];
      value_type = 4;
      content = 1 ∷ [];
    }
    ∷ []

abbrev path_a_b : List Bytes
path_a_b = (b'a' ∷ []) ∷ (b'b' ∷ []) ∷ []

build-asked_at_example :
    IsTrie (build lower no_hash two_ops)
    × (contents (find path_a_b (build lower no_hash two_ops)) ≡ asked_at lower path_a_b two_ops)
build-asked_at_example = build-asked_at lower no_hash two_ops path_a_b

abbrev plain_info : Bytes → Bool → Info
plain_info name new = record {
  name = name;
  name_lower = name;
  hash = 0;
  values = [];
  delete_key = false;
  ensure_key = new;
  cell_idx = invalid_offset;
  exists = false;
  sk_cell_idx = 0;
  sub_key_list_ref = 0;
  sub_key_count = 0;
  value_list_ref = 0;
  value_count = 0;
}

abbrev new_key : Node
new_key = node (plain_info (b'k' ∷ []) true) no_children

-- One new key below the root.
abbrev one_key : Node
one_key = node (plain_info [] false) (child new_key no_children)

abbrev one_cell : SpacePlan
one_cell = record {
  total_new_bytes = 88;
  new_nk_count = 1;
  new_vk_count = 0;
  new_data_count = 0;
  list_rebuilds = 0;
  in_place_updates = 0;
  manifest = record { owner = new_key; kind = cell_nk; size = 88 } ∷ [];
}

one_key-estimate : estimate one_key ≡ ok one_cell
unfolding estimate walk walk_node walk_children visit add_values add_cell
one_key-estimate = refl

abbrev page : Allocator
page = record { buffer = zeros 4096; dt = new_tracker; bump = no_bump; free = [] }

page_zeros : length (zeros 4096) ≡ 4096
unfolding zeros
page_zeros = refl

estimate-Serves_example : Serves 88 (88 ∷ []) page
estimate-Serves_example =
    estimate-Serves one_key one_cell (88 ∷ []) page one_key-estimate
      (refl, omega (arith, page_zeros), omega arith, omega (arith, page_zeros)) (omega arith)
      (Permᴰ.cons refl Permᴰ.nil)
