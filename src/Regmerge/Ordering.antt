-- ===== src/Regmerge/Ordering.antt =====
-- internal/regmerge/ordering.go, and the edit operations of pkg/types/api.go that it sorts.
pub mod Permutes
pub mod Groups
pub mod Insertion
use hivekit.Common.{ℕ, suc, List, [], ◌∷◌, ◌++◌, map, Bool, length, leb, ltb, ◌==◌, if◌then◌else◌}
use hivekit.Common.Bytes.{Bytes}
use hivekit.Format.Consts.{bytes_equal}
use hivekit.Merge.Names.{name_lt}
use hivekit.Common.Text.{backslash}

-- The implementations of types.EditOp; `unknown` is the nil interface, the only other value.
pub data EditOp : Type 0 where
  set_value : (path name : Bytes) (type : ℕ) (buffer : Bytes) → EditOp
  delete_value : (path name : Bytes) → EditOp
  create_key : (path : Bytes) → EditOp
  delete_key : (path : Bytes) (recursive : Bool) → EditOp
  unknown : EditOp

unfoldable pub op_priority : EditOp → ℕ
op_priority (create_key path) = 0
op_priority (delete_key path recursive) = 1
op_priority (delete_value path name) = 2
op_priority (set_value path name type buffer) = 3
op_priority unknown = 4

unfoldable pub get_op_path : (Bytes → Bytes) → EditOp → Bytes
get_op_path normalize (create_key path) = normalize path
get_op_path normalize (delete_key path recursive) = normalize path
get_op_path normalize (set_value path name type buffer) = normalize path
get_op_path normalize (delete_value path name) = normalize path
get_op_path normalize unknown = []

-- An opGroup.
pub record OpGroup : Type 0 where
  pub path : Bytes
  pub depth : ℕ
  pub ops : List EditOp

-- strings.Count(path, "\\")
pub count_backslashes : Bytes → ℕ
count_backslashes [] = 0
count_backslashes (c ∷ path) = let n = count_backslashes path in if c == backslash then suc n else n

-- The body of the loop that builds the map: an operation goes to the end of the group of its path.
pub add_op : EditOp → Bytes → List OpGroup → List OpGroup
unfolding bytes_equal count_backslashes
add_op op path [] = record { path = path; depth = count_backslashes path; ops = op ∷ [] } ∷ []
add_op op path (g ∷ groups) =
    let later = add_op op path groups in
    if bytes_equal g.path path then record g { ops = g.ops ++ (op ∷ []) } ∷ groups else g ∷ later

pub group_ops : (Bytes → Bytes) → List EditOp → List OpGroup → List OpGroup
unfolding get_op_path add_op
group_ops normalize [] groups = groups
group_ops normalize (op ∷ ops) groups =
    group_ops normalize ops (add_op op (get_op_path normalize op) groups)

-- The two comparisons that sort.Slice is called with.
unfoldable pub group_less : OpGroup → OpGroup → Bool
unfolding name_lt
group_less a b = if a.depth == b.depth then name_lt a.path b.path else ltb a.depth b.depth

unfoldable pub op_less : EditOp → EditOp → Bool
unfolding op_priority
op_less a b = ltb (op_priority a) (op_priority b)

pub sort_ops : (List EditOp → List EditOp) → OpGroup → List EditOp
sort_ops sort_slice g = if ltb 1 (length g.ops) then sort_slice g.ops else g.ops

unfoldable pub flatten : List (List EditOp) → List EditOp
flatten [] = []
flatten (ops ∷ more) = ops ++ flatten more

-- The two calls of sort.Slice are arguments. The order in which Go ranges over the map of groups is
-- lost in the first sort, since no two groups have the same path.
unfoldable pub order_ops :
    (List OpGroup → List OpGroup)
    → (List EditOp → List EditOp)
    → (Bytes → Bytes)
    → List EditOp
    → List EditOp
unfolding group_ops flatten sort_ops
order_ops sort_groups sort_slice normalize ops =
    if leb (length ops) 1
    then ops
    else flatten (map (sort_ops sort_slice) (sort_groups (group_ops normalize ops [])))
