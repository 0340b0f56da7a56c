-- ===== src/Regmerge/Optimizer/Ordered.antt =====
-- What ordering does to a value: nothing, when every operation on the value is the last to decide.
use mathlib.Core.List.{Permᴰ}
use hivekit.Common.{
  List, [], ◌∷◌, ◌≡◌, refl, sym, ap, ◌∙◌, arith, All, Bool, true, false, none, ◌||◌, Bool-cases,
  inl, inr, if◌then◌else◌,
}
use hivekit.Common.Sorting.{All-perm, any, any-perm}
use hivekit.Regmerge.Ordering.{EditOp, set_value, delete_value, create_key, delete_key, unknown}
use hivekit.Regmerge.Optimizer.Fate.{
  is_within, Content, Target, is_target, run_op, run_ops, decides, decided, run_op-decides,
  run_op-passes,
}

-- The operation writes or deletes the value itself.
unfoldable pub sets : Target → EditOp → Bool
unfolding is_target
sets t (set_value path name type buffer) = is_target t (t.normalize path) name
sets t (delete_value path name) = is_target t (t.normalize path) name
sets t _ = false

-- The operation deletes its key or one above.
unfoldable pub deletes : Target → EditOp → Bool
unfolding is_within
deletes t (delete_key path recursive) = is_within (t.normalize path) t.path
deletes t _ = false

decides-or : (t : Target) (op : EditOp) → decides t op ≡ sets t op || deletes t op
unfolding decides sets deletes
decides-or t (set_value path name type buffer) = ground arith
decides-or t (delete_value path name) = ground arith
decides-or t (create_key path) = refl
decides-or t (delete_key path recursive) = refl
decides-or t unknown = refl

pub decided-or :
    (t : Target) (ops : List EditOp) → decided t ops ≡ any (sets t) ops || any (deletes t) ops
unfolding decided
decided-or t [] = refl
decided-or t (op ∷ ops) = ground (arith, decides-or t op, decided-or t ops)

-- Nothing decides behind an operation on the value.
abbrev pub SetsFinal : Target → List EditOp → Type 0
SetsFinal t [] = Unit {0}
SetsFinal t (op ∷ ops) = (sets t op ≡ true → decided t ops ≡ false) × SetsFinal t ops

-- No key is deleted behind an operation on the value.
abbrev pub SetsLast : Target → List EditOp → Type 0
SetsLast t [] = Unit {0}
SetsLast t (op ∷ ops) = (sets t op ≡ true → any (deletes t) ops ≡ false) × SetsLast t ops

run_ops-passes :
    (t : Target) (ops : List EditOp) (c : Content) → decided t ops ≡ false → run_ops t ops c ≡ c
unfolding decided run_ops
run_ops-passes t [] c h = refl
run_ops-passes t (op ∷ ops) c h =
    ap (run_ops t ops) (run_op-passes t op c (ground arith)) ∙ run_ops-passes t ops c (ground arith)

-- All operations on the value leave the content `k`.
abbrev SetTo : Target → Content → EditOp → Type 0
SetTo t k op = sets t op ≡ true → (c : Content) → run_op t op c ≡ k

sets-decides : (t : Target) (op : EditOp) → sets t op ≡ true → decides t op ≡ true
sets-decides t op h = ground (arith, decides-or t op)

SetsFinal-SetTo :
    (t : Target) (ops : List EditOp) (c : Content)
    → SetsFinal t ops
    → All (SetTo t (run_ops t ops c)) ops
unfolding run_ops
SetsFinal-SetTo t [] c h = tt
SetsFinal-SetTo t (op ∷ ops) c h = (
  λ s c'.
      run_op-decides t op c' c (sets-decides t op s)
      ∙ sym (run_ops-passes t ops (run_op t op c) (h.0 s)),
  SetsFinal-SetTo t ops (run_op t op c) h.1,
)

run_ops-SetTo :
    (t : Target) (k : Content) (ops : List EditOp) (c : Content)
    → All (SetTo t k) ops
    → SetsLast t ops
    → any (sets t) ops ≡ true
    → run_ops t ops c ≡ k
unfolding run_ops
run_ops-SetTo t k [] c a h s = ground arith
run_ops-SetTo t k (op ∷ ops) c a h s = elim (Bool-cases (any (sets t) ops)) [
  | inl later ↦ run_ops-SetTo t k ops (run_op t op c) a.1 h.1 later
  | inr none_later ↦
      let here : sets t op ≡ true = ground arith in
      run_ops-passes t ops (run_op t op c) (ground (arith, decided-or t ops, h.0 here)) ∙ a.0 here c
]

run_op-unset :
    (t : Target) (op : EditOp) (c : Content)
    → sets t op ≡ false
    → run_op t op c ≡ (if deletes t op then none else c)
unfolding run_op sets deletes
run_op-unset t (set_value path name type buffer) c h = ground arith
run_op-unset t (delete_value path name) c h = ground arith
run_op-unset t (delete_key path recursive) c h = refl
run_op-unset t (create_key path) c h = refl
run_op-unset t unknown c h = refl

run_ops-unset :
    (t : Target) (ops : List EditOp) (c : Content)
    → any (sets t) ops ≡ false
    → run_ops t ops c ≡ (if any (deletes t) ops then none else c)
unfolding run_ops
run_ops-unset t [] c h = refl
run_ops-unset t (op ∷ ops) c h =
    ground (
      arith,
      run_op-unset t op c (ground arith),
      run_ops-unset t ops (run_op t op c) (ground arith),
    )

-- A permutation in which no key is deleted behind an operation on the value does the same to it.
pub run_ops-perm :
    (t : Target) (xs ys : List EditOp) (c : Content)
    → Permᴰ xs ys
    → SetsFinal t xs
    → SetsLast t ys
    → run_ops t ys c ≡ run_ops t xs c
run_ops-perm t xs ys c p h l = elim (Bool-cases (any (sets t) xs)) [
  | inl s ↦
      run_ops-SetTo t (run_ops t xs c) ys c (All-perm _ p (SetsFinal-SetTo t xs c h)) l
        (sym (any-perm (sets t) p) ∙ s)
  | inr u ↦
      run_ops-unset t ys c (sym (any-perm (sets t) p) ∙ u)
      ∙ ap (λ b. if b then none else c) (sym (any-perm (deletes t) p))
      ∙ sym (run_ops-unset t xs c u)
]
