-- ===== src/Merge/Plan.antt =====
-- hive/merge/v2/plan (estimate.go, types.go): the cells that a trie needs. Sums of sizes are int64s
-- that do not overflow.
pub mod Balance
pub mod Served
use hivekit.Common.{
  ℕ, zero, suc, ◌+◌, ◌-◌, ◌*◌, ◌%◌, ◌^◌, List, [], ◌∷◌, ◌++◌, Bool, true, false, not, ◌&&◌, ◌||◌,
  Outcome, ok, err, ◌>>=◌, ◌>>◌, refuse, length, ltb, if◌then◌else◌,
}
use hivekit.Common.Bytes.{Bytes}
use hivekit.Format.Consts.{
  Error, no_space, cell_header_size, nk_min_size, vk_min_size, list_header_size,
}
use hivekit.Format.Align.{align8}
use hivekit.Merge.Trie.{
  Node, Children, no_children, child, node, Info, info, children, ValueOp, walk,
}

pub data CellKind : Type 0 where
  cell_nk cell_vk cell_data cell_subkey_list cell_value_list : CellKind

-- The size is an int32.
pub record AllocEntry : Type 0 where
  pub owner : Node
  pub kind : CellKind
  pub size : ℕ

pub record SpacePlan : Type 0 where
  pub total_new_bytes : ℕ
  pub new_nk_count : ℕ
  pub new_vk_count : ℕ
  pub new_data_count : ℕ
  pub list_rebuilds : ℕ
  pub in_place_updates : ℕ
  pub manifest : List AllocEntry

-- The two variables of Estimate.
pub record Estimation : Type 0 where
  pub total : ℕ
  pub sp : SpacePlan

abbrev pub no_plan : SpacePlan
no_plan = record {
  total_new_bytes = 0;
  new_nk_count = 0;
  new_vk_count = 0;
  new_data_count = 0;
  list_rebuilds = 0;
  in_place_updates = 0;
  manifest = [];
}

unfoldable pub add_cell : Node → CellKind → ℕ → Estimation → Estimation
add_cell owner kind size e = record {
  total = e.total + align8 size;
  sp = record e.sp {
    manifest =
        e.sp.manifest ++ (record { owner = owner; kind = kind; size = align8 size % 2 ^ 32 } ∷ []);
  };
}

abbrev count_nk : Estimation → Estimation
count_nk e = record e { sp = record e.sp { new_nk_count = e.sp.new_nk_count + 1 } }

abbrev pub count_vk : Estimation → Estimation
count_vk e = record e { sp = record e.sp { new_vk_count = e.sp.new_vk_count + 1 } }

abbrev count_data : Estimation → Estimation
count_data e = record e { sp = record e.sp { new_data_count = e.sp.new_data_count + 1 } }

abbrev count_rebuild : Estimation → Estimation
count_rebuild e = record e { sp = record e.sp { list_rebuilds = e.sp.list_rebuilds + 1 } }

-- The loop over the values, which also counts those that are set.
unfoldable pub add_values : Node → List ValueOp → ℕ → Estimation → ℕ × Estimation
unfolding add_cell
add_values owner [] new_value_count e = (new_value_count, e)
add_values owner (vop ∷ vops) new_value_count e =
    let with_vk =
      count_vk (add_cell owner cell_vk (cell_header_size + vk_min_size + length vop.name) e) in
    let with_data =
      if ltb 4 (length vop.content)
      then count_data (add_cell owner cell_data (cell_header_size + length vop.content) with_vk)
      else with_vk in
    let skipped = add_values owner vops new_value_count e in
    let added = add_values owner vops (new_value_count + 1) with_data in
    if vop.delete then skipped else added

abbrev pub new_child_count : Children → ℕ
new_child_count no_children = 0
new_child_count (child n ns) =
    if (info n).exists then new_child_count ns else new_child_count ns + 1

abbrev any_children : Children → Bool
any_children no_children = false
any_children (child n ns) = true

-- A cell for a list of `count` entries, when something was added to it.
abbrev pub rebuild : Bool → Node → CellKind → ℕ → Estimation → Estimation
rebuild needed owner kind size e = if needed then count_rebuild (add_cell owner kind size e) else e

-- A key that is not there, with something to do at it or below it.
abbrev pub needs_nk : Node → Bool
needs_nk n =
    let i = info n in
    not i.exists
    && (((i.ensure_key || i.delete_key) || ltb 0 (length i.values)) || any_children (children n))

abbrev pub with_nk : Node → Estimation → Estimation
with_nk n e =
    if needs_nk n
    then count_nk (add_cell n cell_nk (cell_header_size + nk_min_size + length (info n).name) e)
    else e

-- The function of the walk.
unfoldable pub visit : Node → ℕ → Estimation → Outcome Error Estimation
unfolding add_values add_cell
visit n depth e =
    let i = info n in
    let values = add_values n i.values 0 (with_nk n e) in
    let new_children = new_child_count (children n) in
    let with_subkeys =
      rebuild (i.exists && ltb 0 new_children) n cell_subkey_list
        (cell_header_size + list_header_size + 8 * (i.sub_key_count + new_children)) values.1 in
    let with_list =
      rebuild (i.exists && ltb 0 values.0) n cell_value_list
        (cell_header_size + 4 * (i.value_count + values.0)) with_subkeys in
    ok (
      rebuild (not i.exists && ltb 0 values.0) n cell_value_list (cell_header_size + 4 * values.0)
        with_list)

-- Estimate behind the walk.
abbrev pub checked_total : Estimation → Outcome Error SpacePlan
checked_total e = do
  refuse (ltb (2 ^ 31 - 1) e.total) no_space
  ok (record e.sp { total_new_bytes = e.total % 2 ^ 32 })

unfoldable pub estimate : Node → Outcome Error SpacePlan
unfolding visit
estimate root = do e ← walk root visit (record { total = 0; sp = no_plan }); checked_total e
