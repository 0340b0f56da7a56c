-- ===== src/Regmerge/Optimizer/Preserved.antt =====
-- The whole optimiser, with its ordering: what it does to a value.
use hivekit.Common.{
  List, [], ◌∷◌, map, ◌≡◌, refl, ap, ◌∙◌, subst, arith, All, Bool, true, false, ◌||◌, length, leb,
  if◌then◌else◌, if-both,
}
use hivekit.Common.Bytes.{Bytes}
use hivekit.Common.Sorting.{any, any-append, Pairwise, Sorted, IsSorter, All-perm}
use hivekit.Format.Consts.{bytes_equal, bytes_equal-≡}
use hivekit.Regmerge.Ordering.{
  EditOp, OpGroup, group_ops, group_less, op_less, sort_ops, flatten, order_ops,
}
use hivekit.Regmerge.Ordering.Permutes.{order_ops-permutes}
use hivekit.Regmerge.Ordering.Groups.{
  IsHome, Apart, group_ops-IsHome, group_ops-Apart, Apart-flip, Apart-perm, sort_ops-IsHome,
  sort_ops-Sorted, ancestor-group_less,
}
use hivekit.Regmerge.Optimizer.{
  OptimizerOptions, Stats, input_stats, first_step, second_step, scan_ops, apply_r2l_optimization,
  optimize,
}
use hivekit.Regmerge.Optimizer.Fate.{is_within, Content, Target, run_ops}
use hivekit.Regmerge.Optimizer.LastWrite.{run_ops-apply_r2l_optimization}
use hivekit.Regmerge.Optimizer.Ordered.{deletes, SetsLast, run_ops-perm}
use hivekit.Regmerge.Optimizer.Final.{exactly, deletes_root, scan_ops-Remembers}
use hivekit.Regmerge.Optimizer.Behind.{
  Sorted-SetsLast, SetsLast-append, any-sets-home, any-deletes-home,
}

module _ (t : Target) (sort_slice : List EditOp → List EditOp)
    (sorter : IsSorter op_less sort_slice) where
  -- A group behind that of the value deletes no key that the value is in.
  behind-kept :
      (g f : OpGroup)
      → IsHome t.normalize g
      → IsHome t.normalize f
      → bytes_equal g.path t.path ≡ true
      → Apart g f
      → group_less f g ≡ false
      → any (deletes t) (sort_ops sort_slice f) ≡ false
  unfolding is_within
  behind-kept g f hg hf e a l =
      let p = bytes_equal-≡ g.path t.path e in
      any-deletes-home t f.path (sort_ops sort_slice f)
        (sort_ops-IsHome t.normalize sort_slice f sorter hf)
        (subst (λ q. is_within f.path q ≡ false) p
          (ground (arith, ancestor-group_less t.normalize f g hf hg, Apart-flip g f a)))

  later_groups-kept :
      (g : OpGroup) (groups : List OpGroup)
      → IsHome t.normalize g
      → All (IsHome t.normalize) groups
      → bytes_equal g.path t.path ≡ true
      → All (Apart g) groups
      → All (λ f. group_less f g ≡ false) groups
      → any (deletes t) (flatten (map (sort_ops sort_slice) groups)) ≡ false
  unfolding flatten
  later_groups-kept g [] hg hs e a l = refl
  later_groups-kept g (f ∷ groups) hg hs e a l = ground (
    arith,
    any-append (deletes t) (sort_ops sort_slice f) (flatten (map (sort_ops sort_slice) groups)),
    behind-kept g f hg hs.0 e a.0 l.0,
    later_groups-kept g groups hg hs.1 e a.1 l.1,
  )

  groups-SetsLast :
      (groups : List OpGroup)
      → All (IsHome t.normalize) groups
      → Pairwise Apart groups
      → Sorted group_less groups
      → SetsLast t (flatten (map (sort_ops sort_slice) groups))
  unfolding flatten
  groups-SetsLast [] h a l = tt
  groups-SetsLast (g ∷ groups) h a l =
      SetsLast-append t (sort_ops sort_slice g) (flatten (map (sort_ops sort_slice) groups))
        (Sorted-SetsLast t (sort_ops sort_slice g) (sort_ops-Sorted sort_slice g sorter))
        (groups-SetsLast groups h.1 a.1 l.1)
        (λ s.
          later_groups-kept g groups h.0 h.1
            (any-sets-home t g.path (sort_ops sort_slice g)
              (sort_ops-IsHome t.normalize sort_slice g sorter h.0) s)
            a.0 l.0)

  short-SetsLast : (ops : List EditOp) → leb (length ops) 1 ≡ true → SetsLast t ops
  short-SetsLast [] h = tt
  short-SetsLast (op ∷ []) h = (λ s. refl, tt)
  short-SetsLast (op ∷ o ∷ ops) h = ground arith

  order_ops-SetsLast :
      (sort_groups : List OpGroup → List OpGroup) (ops : List EditOp)
      → IsSorter group_less sort_groups
      → SetsLast t (order_ops sort_groups sort_slice t.normalize ops)
  unfolding order_ops
  order_ops-SetsLast sort_groups ops s =
      let groups = group_ops t.normalize ops [] in
      if-both (SetsLast t) (leb (length ops) 1) (short-SetsLast ops) (λ e.
        groups-SetsLast (sort_groups groups)
          (All-perm _ (s.permutes groups) (group_ops-IsHome t.normalize ops [] tt))
          (Apart-perm (s.permutes groups) (group_ops-Apart t.normalize ops [] tt))
          (s.sorted groups))

first_step-on :
    (normalize : Bytes → Bytes) (ops : List EditOp) (opts : OptimizerOptions)
    → opts.enable_dedup ≡ true
    → (first_step normalize ops opts).0
      ≡ (scan_ops normalize opts (input_stats (length ops)) ops).result
unfolding apply_r2l_optimization
first_step-on normalize ops opts h =
    let s = scan_ops normalize opts (input_stats (length ops)) ops in
    ap (λ b. (chosen (b || opts.enable_delete_opt) (s.result, s.stats)).0) h
  where
    chosen : Bool → List EditOp × Stats → List EditOp × Stats
    chosen b r = if b then r else (ops, input_stats (length ops))

-- The optimiser with deduplication and delete shadowing on, with the ordering on or off and with
-- any sorts that keep the promise of sort.Slice, leaves every value with a name as the plain
-- operations leave it, from any content, when none of them deletes the root key.
pub run_ops-optimize :
    (sort_groups : List OpGroup → List OpGroup) (sort_slice : List EditOp → List EditOp)
    (normalize : Bytes → Bytes) (path name : Bytes) (ops : List EditOp) (opts : OptimizerOptions)
    (c : Content)
    → IsSorter group_less sort_groups
    → IsSorter op_less sort_slice
    → opts.enable_dedup ≡ true
    → opts.enable_delete_opt ≡ true
    → any (deletes_root normalize) ops ≡ false
    → bytes_equal [] name ≡ false
    → run_ops
        (exactly normalize path name)
        (optimize normalize (order_ops sort_groups sort_slice normalize) ops opts).0
        c
      ≡ run_ops (exactly normalize path name) ops c
unfolding optimize apply_r2l_optimization
run_ops-optimize sort_groups sort_slice normalize path name [] opts c sg ss dedup delete_opt root
      named =
    refl
run_ops-optimize sort_groups sort_slice normalize path name (op ∷ ops) opts c sg ss dedup delete_opt
      root named =
    let t = exactly normalize path name in
    let stats = input_stats (length (op ∷ ops)) in
    let scanned = scan_ops normalize opts stats (op ∷ ops) in
    let same = run_ops-apply_r2l_optimization t (op ∷ ops) opts stats c named in
    let order = order_ops sort_groups sort_slice normalize in
    ap (λ xs. run_ops t (second_step order opts xs) c)
      (first_step-on normalize (op ∷ ops) opts dedup)
    ∙ if-both (λ out. run_ops t out c ≡ run_ops t (op ∷ ops) c) opts.enable_ordering
        (λ e.
          run_ops-perm t scanned.result (order scanned.result) c
            (order_ops-permutes sort_slice ss sort_groups normalize scanned.result sg)
            (scan_ops-Remembers normalize path name opts dedup delete_opt stats (op ∷ ops)
              root).final
            (order_ops-SetsLast t sort_slice ss sort_groups scanned.result sg)
          ∙ same)
        (λ e. same)
