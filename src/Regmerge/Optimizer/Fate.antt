-- ===== src/Regmerge/Optimizer/Fate.antt =====
-- What a list of operations does to one registry value, independently of the optimiser: the value is
-- given by the normalised path of its key and by its name, up to any folding of names.
use hivekit.Common.{
  ℕ, List, [], ◌∷◌, ◌≡◌, refl, ap, arith, Bool, true, false, Option, none, some, ◌&&◌, ◌||◌, length,
  ◌==◌, if◌then◌else◌, Bool-cases, inl, inr,
}
use hivekit.Common.Bytes.{Bytes}
use hivekit.Format.Consts.{bytes_equal}
use hivekit.Regmerge.Paths.Ancestors.{is_ancestor}
use hivekit.Regmerge.Ordering.{EditOp, set_value, delete_value, create_key, delete_key, unknown}

-- A key is within another one when it is that key or below it; the empty path is the root.
unfoldable pub is_within : Bytes → Bytes → Bool
unfolding is_ancestor bytes_equal
is_within d path = (length d == 0) || bytes_equal d path || is_ancestor d path

-- The content of a value: its type and its data, or none.
abbrev pub Content : Type 0
Content = Option (ℕ × Bytes)

-- How names are compared and paths are normalised, and the value that is looked at.
pub record Target : Type 0 where
  pub normalize : Bytes → Bytes
  pub fold : Bytes → Bytes
  pub path : Bytes
  pub name : Bytes

unfoldable pub is_target : Target → Bytes → Bytes → Bool
unfolding bytes_equal
is_target t path name = bytes_equal path t.path && bytes_equal (t.fold name) t.name

-- What an operation leaves of the content.
unfoldable pub run_op : Target → EditOp → Content → Content
unfolding is_target is_within
run_op t (set_value path name type buffer) c =
    if is_target t (t.normalize path) name then some (type, buffer) else c
run_op t (delete_value path name) c = if is_target t (t.normalize path) name then none else c
run_op t (delete_key path recursive) c = if is_within (t.normalize path) t.path then none else c
run_op t (create_key path) c = c
run_op t unknown c = c

-- The operations in their order.
unfoldable pub run_ops : Target → List EditOp → Content → Content
unfolding run_op
run_ops t [] c = c
run_ops t (op ∷ ops) c = run_ops t ops (run_op t op c)

-- The operation decides on the content, whatever it was.
unfoldable pub decides : Target → EditOp → Bool
unfolding is_target is_within
decides t (set_value path name type buffer) = is_target t (t.normalize path) name
decides t (delete_value path name) = is_target t (t.normalize path) name
decides t (delete_key path recursive) = is_within (t.normalize path) t.path
decides t (create_key path) = false
decides t unknown = false

unfoldable pub decided : Target → List EditOp → Bool
unfolding decides
decided t [] = false
decided t (op ∷ ops) = decides t op || decided t ops

pub run_op-decides :
    (t : Target) (op : EditOp) (c c' : Content)
    → decides t op ≡ true
    → run_op t op c ≡ run_op t op c'
unfolding decides run_op
run_op-decides t (set_value path name type buffer) c c' h = ground arith
run_op-decides t (delete_value path name) c c' h = ground arith
run_op-decides t (delete_key path recursive) c c' h = ground arith
run_op-decides t (create_key path) c c' h = ground arith
run_op-decides t unknown c c' h = ground arith

pub run_op-passes :
    (t : Target) (op : EditOp) (c : Content) → decides t op ≡ false → run_op t op c ≡ c
unfolding decides run_op
run_op-passes t (set_value path name type buffer) c h = ground arith
run_op-passes t (delete_value path name) c h = ground arith
run_op-passes t (delete_key path recursive) c h = ground arith
run_op-passes t (create_key path) c h = refl
run_op-passes t unknown c h = refl

-- Behind decided operations it does not matter what there was.
pub run_ops-decided :
    (t : Target) (ops : List EditOp) (c c' : Content)
    → decided t ops ≡ true
    → run_ops t ops c ≡ run_ops t ops c'
unfolding decided run_ops
run_ops-decided t [] c c' h = ground arith
run_ops-decided t (op ∷ ops) c c' h = elim (Bool-cases (decided t ops)) [
  | inl later ↦ run_ops-decided t ops (run_op t op c) (run_op t op c') later
  | inr not_later ↦ ap (run_ops t ops) (run_op-decides t op c c' (ground arith))
]
