-- ===== src/Regmerge/Optimizer/Behind.antt =====
-- Which deletes stand behind an operation on a value, in a sorted group and in groups of one path.
use hivekit.Common.{List, [], ◌∷◌, ◌++◌, ◌≡◌, refl, sym, ap, ◌∙◌, subst, arith, All, true, false}
use hivekit.Common.Bytes.{Bytes}
use hivekit.Common.Sorting.{any, any-append, Sorted}
use hivekit.Format.Consts.{bytes_equal, bytes_equal-≡}
use hivekit.Regmerge.Ordering.{
  EditOp, set_value, delete_value, create_key, delete_key, unknown, get_op_path, op_less,
  op_priority,
}
use hivekit.Regmerge.Optimizer.Fate.{is_within, Target, is_target}
use hivekit.Regmerge.Optimizer.Ordered.{sets, deletes, SetsLast}

module _ (t : Target) where
  -- An operation on the value keeps the deletes behind it out of a sorted group.
  sets-behind :
      (op : EditOp) (ops : List EditOp)
      → sets t op ≡ true
      → All (λ y. op_less y op ≡ false) ops
      → any (deletes t) ops ≡ false
  unfolding sets deletes op_less op_priority
  sets-behind op [] s h = refl
  sets-behind op (o ∷ ops) s h = ground (arith, sets-behind op ops s h.1, not_behind op o s h.0)
    where
      not_behind : (op o : EditOp) → sets t op ≡ true → op_less o op ≡ false → deletes t o ≡ false
      not_behind (set_value path name type buffer) (delete_key p recursive) s h = ground arith
      not_behind (delete_value path name) (delete_key p recursive) s h = ground arith
      not_behind (create_key path) (delete_key p recursive) s h = ground arith
      not_behind (delete_key path r) (delete_key p recursive) s h = ground arith
      not_behind unknown (delete_key p recursive) s h = ground arith
      not_behind op (set_value path name type buffer) s h = refl
      not_behind op (delete_value path name) s h = refl
      not_behind op (create_key path) s h = refl
      not_behind op unknown s h = refl

  pub Sorted-SetsLast : (ops : List EditOp) → Sorted op_less ops → SetsLast t ops
  Sorted-SetsLast [] h = tt
  Sorted-SetsLast (op ∷ ops) h = (λ s. sets-behind op ops s h.0, Sorted-SetsLast ops h.1)

  pub SetsLast-append :
      (xs ys : List EditOp)
      → SetsLast t xs
      → SetsLast t ys
      → (any (sets t) xs ≡ true → any (deletes t) ys ≡ false)
      → SetsLast t (xs ++ ys)
  SetsLast-append [] ys h k c = k
  SetsLast-append (x ∷ xs) ys h k c = (
    λ s. ground (arith, any-append (deletes t) xs ys, h.0 s, c),
    SetsLast-append xs ys h.1 k (λ s. c (ground arith)),
  )

  -- The operations of a group speak of its path.
  abbrev Of : Bytes → EditOp → Type 0
  Of path op = bytes_equal path (get_op_path t.normalize op) ≡ true

  sets-home :
      (path : Bytes) (op : EditOp) → Of path op → sets t op ≡ true → bytes_equal path t.path ≡ true
  unfolding sets is_target get_op_path
  sets-home path (set_value p n type buffer) h s =
      subst (λ q. bytes_equal path q ≡ true) (bytes_equal-≡ (t.normalize p) t.path (ground arith)) h
  sets-home path (delete_value p n) h s =
      subst (λ q. bytes_equal path q ≡ true) (bytes_equal-≡ (t.normalize p) t.path (ground arith)) h
  sets-home path (create_key p) h s = cc
  sets-home path (delete_key p recursive) h s = cc
  sets-home path unknown h s = cc

  pub any-sets-home :
      (path : Bytes) (ops : List EditOp)
      → All (Of path) ops
      → any (sets t) ops ≡ true
      → bytes_equal path t.path ≡ true
  any-sets-home path [] h s = cc
  any-sets-home path (op ∷ ops) h s =
      ground (arith, sets-home path op h.0, any-sets-home path ops h.1)

  deletes-home :
      (path : Bytes) (op : EditOp)
      → Of path op
      → is_within path t.path ≡ false
      → deletes t op ≡ false
  unfolding deletes get_op_path
  deletes-home path (delete_key p recursive) h w =
      sym (ap (λ q. is_within q t.path) (bytes_equal-≡ path (t.normalize p) h)) ∙ w
  deletes-home path (set_value p n type buffer) h w = refl
  deletes-home path (delete_value p n) h w = refl
  deletes-home path (create_key p) h w = refl
  deletes-home path unknown h w = refl

  pub any-deletes-home :
      (path : Bytes) (ops : List EditOp)
      → All (Of path) ops
      → is_within path t.path ≡ false
      → any (deletes t) ops ≡ false
  any-deletes-home path [] h w = refl
  any-deletes-home path (op ∷ ops) h w =
      ground (arith, deletes-home path op h.0 w, any-deletes-home path ops h.1 w)
