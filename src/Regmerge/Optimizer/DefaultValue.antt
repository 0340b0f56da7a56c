-- ===== src/Regmerge/Optimizer/DefaultValue.antt =====
-- Where the scan changes what the operations do: the default value of a key, whose name is empty,
-- shares its entry of the map with the creation of the key.
use hivekit.Common.{ℕ, [], ◌∷◌, ◌≡◌, arith, true, false, some}
use hivekit.Common.Bytes.{Bytes}
use hivekit.Format.Consts.{bytes_equal, bytes_equal_self}
use hivekit.Regmerge.Paths.{is_under_deleted, is_deleted}
use hivekit.Regmerge.Paths.Ancestors.{is_under_deleted-eq, ancestor_deleted}
use hivekit.Regmerge.Ordering.{set_value, create_key}
use hivekit.Regmerge.Optimizer.{
  OptimizerOptions, Stats, is_kept, scan_op, scan_ops, apply_r2l_optimization,
}
use hivekit.Regmerge.Optimizer.Fate.{Content, is_target, run_op, run_ops}
use hivekit.Regmerge.Optimizer.Final.{exactly}

none_deleted : (path : Bytes) → is_under_deleted path [] ≡ false
unfolding is_deleted ancestor_deleted
none_deleted path = is_under_deleted-eq path []

-- With deduplication on, a write of the default value of a key goes when the key is created behind
-- it: the plain operations leave what was written, the scanned ones what there was before.
pub default_value_lost :
    (normalize : Bytes → Bytes) (path : Bytes) (type : ℕ) (buffer : Bytes) (opts : OptimizerOptions)
    (stats : Stats) (c : Content)
    → opts.enable_dedup ≡ true
    → (run_ops
          (exactly normalize (normalize path) [])
          (set_value path [] type buffer ∷ create_key path ∷ [])
          c
        ≡ some (type, buffer))
      × (run_ops
            (exactly normalize (normalize path) [])
            (apply_r2l_optimization normalize
              (set_value path [] type buffer ∷ create_key path ∷ [])
              opts
              stats).0
            c
          ≡ c)
unfolding run_ops run_op is_target bytes_equal apply_r2l_optimization scan_ops scan_op is_kept
default_value_lost normalize path type buffer opts stats c h = (
  ground (arith, bytes_equal_self (normalize path)),
  ground (arith, bytes_equal_self (normalize path), none_deleted (normalize path)),
)
