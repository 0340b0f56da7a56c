-- ===== src/Tests/Optimiser.antt =====
-- Examples for the optimiser of edit operations: the paths are `S`, `S\t` and `S\t\c` below HKLM.
use hivekit.Common.{
  ◌≡◌, refl, List, [], ◌∷◌, ◌++◌, true, false, none, some, ◌&&◌, leb, if◌then◌else◌, ◌-◌, ◌+◌, map,
}
use hivekit.Common.Bytes.{Bytes}
use hivekit.Common.Text.{backslash}
use hivekit.Common.Sorting.{sort_by}
use hivekit.Format.Consts.{bytes_equal}
use hivekit.Regmerge.Paths.{hkey, normalize_path}
use hivekit.Regmerge.Ordering.{
  EditOp, set_value, create_key, delete_key, group_less, op_less, order_ops,
}
use hivekit.Regmerge.Ordering.Insertion.{sort_by-op_less, sort_by-group_less}
use hivekit.Regmerge.Optimizer.{OptimizerOptions, input_stats, apply_r2l_optimization, optimize}
use hivekit.Regmerge.Optimizer.Fate.{run_ops}
use hivekit.Regmerge.Optimizer.Final.{exactly, deletes_root}
use hivekit.Regmerge.Optimizer.Preserved.{run_ops-optimize}
use hivekit.Regmerge.Optimizer.DefaultValue.{default_value_lost}

-- The case of ASCII letters.
abbrev to_upper : Bytes → Bytes
to_upper s = map (λ c. if leb b'a' c && leb c b'z' then c - 32 else c) s

abbrev to_lower : Bytes → Bytes
to_lower s = map (λ c. if leb b'A' c && leb c b'Z' then c + 32 else c) s

abbrev normalize : Bytes → Bytes
unfolding normalize_path
normalize path = normalize_path to_upper to_lower path

abbrev test_path : Bytes
test_path = hkey (b'L' ∷ b'M' ∷ backslash ∷ b'S' ∷ backslash ∷ b't' ∷ [])

abbrev lower_test_path : Bytes
lower_test_path = b's' ∷ backslash ∷ b't' ∷ []

abbrev child_path : Bytes
child_path = lower_test_path ++ (backslash ∷ b'c' ∷ [])

abbrev value_name : Bytes
value_name = b'v' ∷ []

-- The child's value is written, its parent is deleted, and the value is written again, twice.
abbrev rewritten : List EditOp
rewritten =
    set_value child_path value_name 1 (1 ∷ [])
    ∷ delete_key test_path true
    ∷ set_value child_path value_name 1 (2 ∷ [])
    ∷ set_value child_path value_name 1 (3 ∷ [])
    ∷ []

abbrev all_on : OptimizerOptions
all_on = record {
  enable_dedup = true;
  enable_delete_opt = true;
  enable_ordering = true;
  enable_subtree_opt = false;
}

abbrev order : List EditOp → List EditOp
unfolding order_ops
order ops = order_ops (sort_by group_less) (sort_by op_less) normalize ops

normalize-test_path : normalize test_path ≡ lower_test_path
unfolding normalize
normalize-test_path = refl

optimize-rewritten :
    (optimize normalize order rewritten all_on).0
    ≡ delete_key test_path true ∷ set_value child_path value_name 1 (3 ∷ []) ∷ []
unfolding optimize order normalize group_less
optimize-rewritten = refl

run_ops-rewritten :
    run_ops (exactly normalize child_path value_name) rewritten none ≡ some (1, 3 ∷ [])
unfolding run_ops normalize
run_ops-rewritten = refl

run_ops-optimize_example :
    run_ops
      (exactly normalize child_path value_name)
      (optimize normalize order rewritten all_on).0
      none
    ≡ run_ops (exactly normalize child_path value_name) rewritten none
unfolding deletes_root normalize bytes_equal order order_ops
run_ops-optimize_example =
    run_ops-optimize (sort_by group_less) (sort_by op_less) normalize child_path value_name
      rewritten all_on none sort_by-group_less sort_by-op_less refl refl refl refl

default_value_lost_example :
    (run_ops
        (exactly normalize lower_test_path [])
        (set_value test_path [] 1 (7 ∷ []) ∷ create_key test_path ∷ [])
        none
      ≡ some (1, 7 ∷ []))
    × (run_ops
          (exactly normalize lower_test_path [])
          (apply_r2l_optimization normalize
            (set_value test_path [] 1 (7 ∷ []) ∷ create_key test_path ∷ [])
            all_on
            (input_stats 2)).0
          none
        ≡ none)
unfolding normalize
default_value_lost_example =
    default_value_lost normalize test_path 1 (7 ∷ []) all_on (input_stats 2) none refl
