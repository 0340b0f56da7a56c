-- ===== src/Regmerge/Optimizer/LastWrite.antt =====
-- The scan keeps the last write: what the operations do to every value.
use hivekit.Common.{
  List, [], ◌∷◌, ◌≡◌, refl, sym, ap, ap₂, ◌∙◌, subst, arith, Bool, true, false, ◌&&◌, ◌||◌,
  if◌then◌else◌, Bool-cases, if-both, inl, inr,
}
use hivekit.Common.Bytes.{Bytes}
use hivekit.Format.Consts.{bytes_equal, bytes_equal-≡}
use hivekit.Regmerge.Paths.{is_deleted, is_under_deleted}
use hivekit.Regmerge.Paths.Ancestors.{ancestor_deleted, is_under_deleted-eq}
use hivekit.Regmerge.Ordering.{EditOp, set_value, delete_value, create_key, delete_key, unknown}
use hivekit.Regmerge.Optimizer.{
  OptimizerOptions, Stats, Scan, is_kept, keep, deduped, shadowed, scan_op, scan_ops,
  apply_r2l_optimization,
}
use hivekit.Regmerge.Optimizer.Fate.{
  is_within, Content, Target, is_target, run_op, run_ops, decides, decided, run_op-passes,
  run_ops-decided,
}

-- The target is among the values that the scan has kept an operation for.
unfoldable keeps_target : Target → List (Bytes × Bytes) → Bool
unfolding is_target
keeps_target t [] = false
keeps_target t (k ∷ kept) = is_target t k.0 k.1 || keeps_target t kept

-- Its key is within a key that the scan has seen deleted.
unfoldable deletes_target : Target → List Bytes → Bool
unfolding is_within
deletes_target t [] = false
deletes_target t (d ∷ deleted) = is_within d t.path || deletes_target t deleted

is_kept-keeps_target :
    (t : Target) (path name : Bytes) (kept : List (Bytes × Bytes))
    → is_kept path name kept ≡ true
    → is_target t path name ≡ true
    → keeps_target t kept ≡ true
unfolding is_kept keeps_target
is_kept-keeps_target t path name [] h g = ground arith
is_kept-keeps_target t path name (k ∷ kept) h g =
    elim (Bool-cases (bytes_equal path k.0 && bytes_equal name k.1)) [
      | inl e ↦
          let p = bytes_equal-≡ path k.0 (ground arith) in
          let n = bytes_equal-≡ name k.1 (ground arith) in
          let hit : is_target t k.0 k.1 ≡ true = sym (ap₂ (is_target t) p n) ∙ g in ground arith
      | inr e ↦ ground (arith, is_kept-keeps_target t path name kept)
    ]

under-deletes_target :
    (t : Target) (deleted : List Bytes)
    → is_deleted t.path deleted || ancestor_deleted t.path deleted ≡ true
    → deletes_target t deleted ≡ true
unfolding is_deleted ancestor_deleted deletes_target is_within
under-deletes_target t [] h = ground arith
under-deletes_target t (d ∷ deleted) h = ground (arith, under-deletes_target t deleted)

is_under_deleted-deletes_target :
    (t : Target) (path name : Bytes) (deleted : List Bytes)
    → is_under_deleted path deleted ≡ true
    → is_target t path name ≡ true
    → deletes_target t deleted ≡ true
unfolding is_target
is_under_deleted-deletes_target t path name deleted h g =
    let p : path ≡ t.path = bytes_equal-≡ path t.path (ground arith) in
    under-deletes_target t deleted (
      sym (is_under_deleted-eq t.path deleted) ∙ subst (λ q. is_under_deleted q deleted ≡ true) p h)

-- What the scan of `ops` knows of the target.
record Tracks (t : Target) (ops : List EditOp) (s : Scan) : Type 0 where
  same : (c : Content) → run_ops t s.result c ≡ run_ops t ops c
  by_kept : keeps_target t s.kept ≡ true → decided t ops ≡ true
  by_deleted : deletes_target t s.deleted ≡ true → decided t ops ≡ true

decided-later :
    (t : Target) (op : EditOp) (ops : List EditOp)
    → decided t ops ≡ true
    → decided t (op ∷ ops) ≡ true
unfolding decided
decided-later t op ops h = ground arith

module _ (t : Target) (op : EditOp) (ops : List EditOp) (s : Scan) (inv : Tracks t ops s) where
  -- An operation may go when the later ones decide wherever it does.
  dropped-same :
      (decides t op ≡ true → decided t ops ≡ true)
      → (c : Content) → run_ops t s.result c ≡ run_ops t (op ∷ ops) c
  unfolding run_ops
  dropped-same h c = elim (Bool-cases (decides t op)) [
    | inl d ↦ inv.same c ∙ run_ops-decided t ops c (run_op t op c) (h d)
    | inr d ↦ inv.same c ∙ sym (ap (run_ops t ops) (run_op-passes t op c d))
  ]

  -- `s'` is a scan that went on without the operation.
  dropped-Tracks :
      (stats : Stats)
      → (decides t op ≡ true → decided t ops ≡ true)
      → Tracks t (op ∷ ops) (record s { stats = stats })
  dropped-Tracks stats h = record {
    same = dropped-same h;
    by_kept = λ k. decided-later t op ops (inv.by_kept k);
    by_deleted = λ k. decided-later t op ops (inv.by_deleted k);
  }

  kept-same : (c : Content) → run_ops t (op ∷ s.result) c ≡ run_ops t (op ∷ ops) c
  unfolding run_ops
  kept-same c = inv.same (run_op t op c)

  keep-Tracks :
      (path name : Bytes)
      → (is_target t path name ≡ true → decides t op ≡ true)
      → Tracks t (op ∷ ops) (keep op path name s)
  unfolding keeps_target decided
  keep-Tracks path name h = record {
    same = kept-same;
    by_kept = λ k. ground (arith, inv.by_kept);
    by_deleted = λ k. decided-later t op ops (inv.by_deleted k);
  }

module _ (t : Target) (opts : OptimizerOptions) (named : bytes_equal (t.fold []) t.name ≡ false)
    (ops : List EditOp) (s : Scan) (inv : Tracks t ops s) where
  value-Tracks :
      (op : EditOp) (path name : Bytes) (stats : Stats)
      → decides t op ≡ is_target t path name
      → Tracks t (op ∷ ops) (
          if is_kept path name s.kept && opts.enable_dedup
          then record s { stats = stats }
          else if is_under_deleted path s.deleted && opts.enable_delete_opt
          then shadowed s
          else keep op path name s)
  value-Tracks op path name stats e =
      if-both (Tracks t (op ∷ ops)) (is_kept path name s.kept && opts.enable_dedup)
        (λ h.
          dropped-Tracks t op ops s inv stats
            (λ d. inv.by_kept (is_kept-keeps_target t path name s.kept (ground arith) (sym e ∙ d))))
        (λ out.
          if-both (Tracks t (op ∷ ops)) (is_under_deleted path s.deleted && opts.enable_delete_opt)
            (λ h. dropped-Tracks t op ops s inv (shadowed s).stats (λ d.
              inv.by_deleted
                (is_under_deleted-deletes_target t path name s.deleted (ground arith) (sym e ∙ d))))
            (λ unshadowed. keep-Tracks t op ops s inv path name (λ h. e ∙ h)))

  delete_key-Tracks :
      (path : Bytes) (recursive : Bool)
      → Tracks t (delete_key path recursive ∷ ops) (record s {
        deleted = t.normalize path ∷ s.deleted;
        result = delete_key path recursive ∷ s.result;
      })
  unfolding deletes_target decided decides
  delete_key-Tracks path recursive = record {
    same = kept-same t (delete_key path recursive) ops s inv;
    by_kept = λ k. ground (arith, inv.by_kept k);
    by_deleted = λ k. ground (arith, inv.by_deleted);
  }

  unnamed : (path : Bytes) → is_target t path [] ≡ false
  unfolding is_target
  unnamed path = ground arith

  create_key-Tracks :
      (path : Bytes)
      → Tracks t (create_key path ∷ ops) (scan_op t.normalize opts (create_key path) s)
  unfolding scan_op decides
  create_key-Tracks path =
      if-both (Tracks t (create_key path ∷ ops))
        (is_under_deleted (t.normalize path) s.deleted && opts.enable_delete_opt)
        (λ h. dropped-Tracks t (create_key path) ops s inv (shadowed s).stats (λ d. cc))
        (λ out.
          if-both (Tracks t (create_key path ∷ ops))
            (is_kept (t.normalize path) [] s.kept && opts.enable_dedup)
            (λ h. dropped-Tracks t (create_key path) ops s inv s.stats (λ d. cc))
            (λ new.
              keep-Tracks t (create_key path) ops s inv (t.normalize path) []
                (λ h. sym (unnamed (t.normalize path)) ∙ h)))

  unknown-Tracks : Tracks t (unknown ∷ ops) (record s { result = unknown ∷ s.result })
  unfolding decided decides
  unknown-Tracks = record {
    same = kept-same t unknown ops s inv;
    by_kept = λ k. decided-later t unknown ops (inv.by_kept k);
    by_deleted = λ k. decided-later t unknown ops (inv.by_deleted k);
  }

  scan_op-Tracks : (op : EditOp) → Tracks t (op ∷ ops) (scan_op t.normalize opts op s)
  unfolding scan_op decides
  scan_op-Tracks (set_value path name type buffer) =
      value-Tracks (set_value path name type buffer) (t.normalize path) name (deduped s).stats refl
  scan_op-Tracks (delete_value path name) =
      value-Tracks (delete_value path name) (t.normalize path) name s.stats refl
  scan_op-Tracks (create_key path) = create_key-Tracks path
  scan_op-Tracks (delete_key path recursive) = delete_key-Tracks path recursive
  scan_op-Tracks unknown = unknown-Tracks

scan_ops-Tracks :
    (t : Target) (opts : OptimizerOptions) (stats : Stats) (ops : List EditOp)
    → bytes_equal (t.fold []) t.name ≡ false
    → Tracks t ops (scan_ops t.normalize opts stats ops)
unfolding scan_ops keeps_target deletes_target
scan_ops-Tracks t opts stats [] named = record {
  same = λ c. refl;
  by_kept = λ k. cc;
  by_deleted = λ k. cc;
}
scan_ops-Tracks t opts stats (op ∷ ops) named =
    scan_op-Tracks t opts named ops (scan_ops t.normalize opts stats ops)
      (scan_ops-Tracks t opts stats ops named) op

-- The scan from right to left, whatever the options, leaves every value with a name as the plain
-- operations leave it: under any normalisation of paths and any folding of names, and from any
-- content. The default value of a key is left out.
pub run_ops-apply_r2l_optimization :
    (t : Target) (ops : List EditOp) (opts : OptimizerOptions) (stats : Stats) (c : Content)
    → bytes_equal (t.fold []) t.name ≡ false
    → run_ops t (apply_r2l_optimization t.normalize ops opts stats).0 c ≡ run_ops t ops c
unfolding apply_r2l_optimization
run_ops-apply_r2l_optimization t ops opts stats c named =
    (scan_ops-Tracks t opts stats ops named).same c
