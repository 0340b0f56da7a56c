-- ===== src/Regmerge/Optimizer.antt =====
-- internal/regmerge/optimizer.go and types.go: the scan of the operations from right to left.
-- `normalize` is normalizePath. The order that a sort leaves equal elements in is not modelled: the
-- step of the ordering is the argument `order`.
pub mod Fate
pub mod LastWrite
pub mod Ordered
pub mod Final
pub mod Behind
pub mod Preserved
pub mod DefaultValue
use hivekit.Common.{ℕ, suc, List, [], ◌∷◌, Bool, true, false, ◌&&◌, ◌||◌, length, if◌then◌else◌}
use hivekit.Common.Bytes.{Bytes}
use hivekit.Format.Consts.{bytes_equal}
use hivekit.Regmerge.Paths.{is_under_deleted}
use hivekit.Regmerge.Ordering.{EditOp, set_value, delete_value, create_key, delete_key, unknown}

pub record OptimizerOptions : Type 0 where
  pub enable_dedup : Bool
  pub enable_delete_opt : Bool
  pub enable_ordering : Bool
  pub enable_subtree_opt : Bool

pub record Stats : Type 0 where
  input_ops : ℕ
  output_ops : ℕ
  deduped_set_value : ℕ
  shadowed_by_delete : ℕ
  subtree_optimized : ℕ

-- kept[opKey{path, name}]: the keys of the map are a list.
pub is_kept : Bytes → Bytes → List (Bytes × Bytes) → Bool
unfolding bytes_equal
is_kept path name [] = false
is_kept path name (k ∷ kept) =
    (bytes_equal path k.0 && bytes_equal name k.1) || is_kept path name kept

-- What the scan keeps. The source appends to `result` and reverses it at the end; here an operation
-- goes to the front, which gives the reversed list.
pub record Scan : Type 0 where
  pub kept : List (Bytes × Bytes)
  pub deleted : List Bytes
  pub result : List EditOp
  pub stats : Stats

abbrev pub deduped : Scan → Scan
deduped s = record s {
  stats = record s.stats { deduped_set_value = suc s.stats.deduped_set_value };
}

abbrev pub shadowed : Scan → Scan
shadowed s = record s {
  stats = record s.stats { shadowed_by_delete = suc s.stats.shadowed_by_delete };
}

abbrev pub keep : EditOp → Bytes → Bytes → Scan → Scan
keep op path name s = record s { kept = (path, name) ∷ s.kept; result = op ∷ s.result }

-- The body of the loop.
pub scan_op : (Bytes → Bytes) → OptimizerOptions → EditOp → Scan → Scan
unfolding is_kept is_under_deleted
scan_op normalize opts (set_value path name type buffer) s =
    if is_kept (normalize path) name s.kept && opts.enable_dedup
    then deduped s
    else if is_under_deleted (normalize path) s.deleted && opts.enable_delete_opt
    then shadowed s
    else keep (set_value path name type buffer) (normalize path) name s
scan_op normalize opts (delete_value path name) s =
    if is_kept (normalize path) name s.kept && opts.enable_dedup
    then s
    else if is_under_deleted (normalize path) s.deleted && opts.enable_delete_opt
    then shadowed s
    else keep (delete_value path name) (normalize path) name s
scan_op normalize opts (delete_key path recursive) s = record s {
  deleted = normalize path ∷ s.deleted;
  result = delete_key path recursive ∷ s.result;
}
scan_op normalize opts (create_key path) s =
    if is_under_deleted (normalize path) s.deleted && opts.enable_delete_opt
    then shadowed s
    else if is_kept (normalize path) [] s.kept && opts.enable_dedup
    then s
    else keep (create_key path) (normalize path) [] s
scan_op normalize opts unknown s = record s { result = unknown ∷ s.result }

-- The loop: the operations behind `op` come first.
pub scan_ops : (Bytes → Bytes) → OptimizerOptions → Stats → List EditOp → Scan
unfolding scan_op
scan_ops normalize opts stats [] = record { kept = []; deleted = []; result = []; stats = stats }
scan_ops normalize opts stats (op ∷ ops) =
    scan_op normalize opts op (scan_ops normalize opts stats ops)

pub apply_r2l_optimization :
    (Bytes → Bytes) → List EditOp → OptimizerOptions → Stats → List EditOp × Stats
unfolding scan_ops
apply_r2l_optimization normalize ops opts stats =
    let s = scan_ops normalize opts stats ops in (s.result, s.stats)

abbrev pub input_stats : ℕ → Stats
input_stats n = record {
  input_ops = n;
  output_ops = 0;
  deduped_set_value = 0;
  shadowed_by_delete = 0;
  subtree_optimized = 0;
}

abbrev pub first_step : (Bytes → Bytes) → List EditOp → OptimizerOptions → List EditOp × Stats
unfolding apply_r2l_optimization
first_step normalize ops opts =
    if opts.enable_dedup || opts.enable_delete_opt
    then apply_r2l_optimization normalize ops opts (input_stats (length ops))
    else (ops, input_stats (length ops))

abbrev pub second_step : (List EditOp → List EditOp) → OptimizerOptions → List EditOp → List EditOp
second_step order opts ops = if opts.enable_ordering then order ops else ops

unfoldable pub optimize :
    (Bytes → Bytes)
    → (List EditOp → List EditOp)
    → List EditOp
    → OptimizerOptions
    → List EditOp × Stats
unfolding apply_r2l_optimization
optimize normalize order [] opts = ([], input_stats 0)
optimize normalize order (op ∷ ops) opts =
    let first = first_step normalize (op ∷ ops) opts in
    let out = second_step order opts first.0 in (out, record first.1 { output_ops = length out })
