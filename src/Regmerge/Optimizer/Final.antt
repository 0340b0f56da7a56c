-- ===== src/Regmerge/Optimizer/Final.antt =====
-- With both reductions on, the scan leaves at most one operation on a value, and no delete behind it.
use hivekit.Common.{
  List, [], ◌∷◌, ◌≡◌, refl, sym, ap, ap₂, ◌∙◌, subst, arith, Bool, true, false, ◌&&◌, ◌||◌, length,
  ◌==◌, if◌then◌else◌, if-both,
}
use hivekit.Common.Bytes.{Bytes}
use hivekit.Common.Sorting.{any}
use hivekit.Format.Consts.{bytes_equal, bytes_equal_self, bytes_equal-≡}
use hivekit.Regmerge.Paths.{is_deleted, is_under_deleted}
use hivekit.Regmerge.Paths.Ancestors.{ancestor_deleted, is_under_deleted-eq}
use hivekit.Regmerge.Ordering.{EditOp, set_value, delete_value, create_key, delete_key, unknown}
use hivekit.Regmerge.Optimizer.{
  OptimizerOptions, Stats, Scan, is_kept, keep, deduped, shadowed, scan_op, scan_ops,
}
use hivekit.Regmerge.Optimizer.Fate.{is_within, Target, is_target, decided}
use hivekit.Regmerge.Optimizer.Ordered.{sets, deletes, decided-or, SetsFinal}

-- The value of that path and exactly that name.
abbrev pub exactly : (Bytes → Bytes) → Bytes → Bytes → Target
exactly normalize path name = record {
  normalize = normalize;
  fold = λ n. n;
  path = path;
  name = name;
}

-- An operation that deletes the root.
unfoldable pub deletes_root : (Bytes → Bytes) → EditOp → Bool
deletes_root normalize (delete_key path recursive) = length (normalize path) == 0
deletes_root normalize _ = false

module _ (normalize : Bytes → Bytes) (path name : Bytes) where
  abbrev value : Target
  value = exactly normalize path name

  -- What the scan remembers of the value.
  pub record Remembers (s : Scan) : Type 0 where
    pub final : SetsFinal value s.result
    pub known : any (sets value) s.result ≡ true → is_kept path name s.kept ≡ true
    gone :
        any (deletes value) s.result ≡ true
        → is_deleted path s.deleted || ancestor_deleted path s.deleted ≡ true

  target-≡ : (p n : Bytes) → is_target value p n ≡ true → (p ≡ path) × (n ≡ name)
  unfolding is_target
  target-≡ p n h = (bytes_equal-≡ p path (ground arith), bytes_equal-≡ n name (ground arith))

  module _ (s : Scan) (inv : Remembers s) where
    undecided :
        (p n : Bytes)
        → is_target value p n ≡ true
        → is_kept p n s.kept ≡ false
        → is_under_deleted p s.deleted ≡ false
        → decided value s.result ≡ false
    undecided p n h k u =
        let e = target-≡ p n h in
        let k' : is_kept path name s.kept ≡ false =
          sym (ap₂ (λ q m. is_kept q m s.kept) e.0 e.1) ∙ k in
        let u' : is_under_deleted path s.deleted ≡ false =
          sym (ap (λ q. is_under_deleted q s.deleted) e.0) ∙ u in
        ground (
          arith,
          decided-or value s.result,
          inv.known,
          inv.gone,
          is_under_deleted-eq path s.deleted,
        )

    is_kept-target :
        (p n : Bytes) → is_target value p n ≡ true → is_kept path name ((p, n) ∷ s.kept) ≡ true
    unfolding is_kept
    is_kept-target p n h =
        let e = target-≡ p n h in
        subst (λ q. (bytes_equal path q && bytes_equal name n) || is_kept path name s.kept ≡ true)
          (sym e.0)
          (subst
            (λ m. (bytes_equal path path && bytes_equal name m) || is_kept path name s.kept ≡ true)
            (sym e.1) (ground (arith, bytes_equal_self path, bytes_equal_self name)))

    is_kept-later :
        (p n : Bytes) → is_kept path name s.kept ≡ true → is_kept path name ((p, n) ∷ s.kept) ≡ true
    unfolding is_kept
    is_kept-later p n h = ground arith

    keep-Remembers :
        (op : EditOp) (p n : Bytes)
        → deletes value op ≡ false
        → (sets value op ≡ true → is_target value p n ≡ true)
        → (sets value op ≡ true → decided value s.result ≡ false)
        → Remembers (keep op p n s)
    keep-Remembers op p n d h f = record {
      final = (f, inv.final);
      known = λ k. ground (arith, inv.known, h, is_kept-target p n, is_kept-later p n);
      gone = λ k. inv.gone (ground arith);
    }

module _ (normalize : Bytes → Bytes) (path name : Bytes) (opts : OptimizerOptions)
    (dedup : opts.enable_dedup ≡ true) (delete_opt : opts.enable_delete_opt ≡ true) where
  abbrev Good : Scan → Type 0
  Good s = Remembers normalize path name s

  module _ (s : Scan) (inv : Good s) where
    restated : (stats : Stats) → Good (record s { stats = stats })
    restated stats = record { final = inv.final; known = inv.known; gone = inv.gone }

    value-Remembers :
        (op : EditOp) (p n : Bytes) (stats : Stats)
        → sets (value normalize path name) op ≡ is_target (value normalize path name) p n
        → deletes (value normalize path name) op ≡ false
        → Good (
            if is_kept p n s.kept && opts.enable_dedup
            then record s { stats = stats }
            else if is_under_deleted p s.deleted && opts.enable_delete_opt
            then shadowed s
            else keep op p n s)
    value-Remembers op p n stats e d =
        if-both Good (is_kept p n s.kept && opts.enable_dedup) (λ h. restated stats)
          (λ new.
            if-both Good (is_under_deleted p s.deleted && opts.enable_delete_opt)
              (λ h. restated (shadowed s).stats)
              (λ free.
                keep-Remembers normalize path name s inv op p n d (λ h. sym e ∙ h)
                  (λ h.
                    undecided normalize path name s inv p n (sym e ∙ h) (ground arith)
                      (ground arith))))

    create_key-Remembers : (p : Bytes) → Good (scan_op normalize opts (create_key p) s)
    unfolding scan_op sets deletes
    create_key-Remembers p =
        if-both Good (is_under_deleted (normalize p) s.deleted && opts.enable_delete_opt)
          (λ h. restated (shadowed s).stats)
          (λ free.
            if-both Good (is_kept (normalize p) [] s.kept && opts.enable_dedup)
              (λ h. restated s.stats)
              (λ new.
                keep-Remembers normalize path name s inv (create_key p) (normalize p) [] refl
                  (λ h. cc) (λ h. cc)))

    within-found :
        (p : Bytes)
        → (length p == 0) ≡ false
        → is_within p path ≡ true
        → is_deleted path (p ∷ s.deleted) || ancestor_deleted path (p ∷ s.deleted) ≡ true
    unfolding is_within is_deleted ancestor_deleted
    within-found p h w = ground arith

    found-later :
        (p : Bytes)
        → is_deleted path s.deleted || ancestor_deleted path s.deleted ≡ true
        → is_deleted path (p ∷ s.deleted) || ancestor_deleted path (p ∷ s.deleted) ≡ true
    unfolding is_deleted ancestor_deleted
    found-later p h = ground arith

    delete_key-Remembers :
        (p : Bytes) (recursive : Bool)
        → (length (normalize p) == 0) ≡ false
        → Good (record s {
          deleted = normalize p ∷ s.deleted;
          result = delete_key p recursive ∷ s.result;
        })
    unfolding sets deletes
    delete_key-Remembers p recursive h = record {
      final = (λ e. cc, inv.final);
      known = inv.known;
      gone = λ k. ground (arith, inv.gone, within-found (normalize p) h, found-later (normalize p));
    }

    scan_op-Remembers :
        (op : EditOp) → deletes_root normalize op ≡ false → Good (scan_op normalize opts op s)
    unfolding scan_op sets deletes deletes_root
    scan_op-Remembers (set_value p n type buffer) h =
        value-Remembers (set_value p n type buffer) (normalize p) n (deduped s).stats refl refl
    scan_op-Remembers (delete_value p n) h =
        value-Remembers (delete_value p n) (normalize p) n s.stats refl refl
    scan_op-Remembers (create_key p) h = create_key-Remembers p
    scan_op-Remembers (delete_key p recursive) h = delete_key-Remembers p recursive h
    scan_op-Remembers unknown h = record {
      final = (λ e. cc, inv.final);
      known = inv.known;
      gone = inv.gone;
    }

  pub scan_ops-Remembers :
      (stats : Stats) (ops : List EditOp)
      → any (deletes_root normalize) ops ≡ false
      → Good (scan_ops normalize opts stats ops)
  unfolding scan_ops
  scan_ops-Remembers stats [] h = record { final = tt; known = λ k. cc; gone = λ k. cc }
  scan_ops-Remembers stats (op ∷ ops) h =
      scan_op-Remembers (scan_ops normalize opts stats ops)
        (scan_ops-Remembers stats ops (ground arith)) op (ground arith)
