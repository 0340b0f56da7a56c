-- ===== src/Regtext/Export/Depth.antt =====
-- How deep the recursion of exportKey goes, and its answers.
use mathlib.Core.List.{Memᴰ}
use hivekit.Common.{
  ℕ, zero, suc, ◌+◌, ◌≤◌, ◌<◌, ◌≡◌, ◌≢◌, refl, arith, Bool, List, [], ◌∷◌, ◌++◌, Option, none, some,
  Outcome, ok, err, panic, bind-ok, ok-inj, subst, All, length, length-append,
}
use hivekit.Common.Bytes.{Bytes}
use hivekit.Common.Sorting.{All-perm}
use hivekit.Regtext.Hex.{TextError}
use hivekit.Regtext.Hex.RoundTrip.{Answers}
use hivekit.Regtext.Export.{
  KeyReader, with_name, finish, encode_text, walk_all, walk_listed, walk, stat_children, children,
  key_text, export_key, export_reg,
}
use hivekit.Regtext.Export.NeverPanics.{
  NeverPanics, follow-Answers, some-Answers, children-never, key_text-never,
}
use hivekit.Regtext.Export.Reached.{Permutes, LeadsTo, here, down}

module _ {K V : Type 0} (r : KeyReader K V) (never : NeverPanics r) where
  module _ (utf16_encode : Bytes → List ℕ) where
    -- What the children of a key are.
    abbrev IsChild : List K → Bytes × K → Type 0
    IsChild subkeys (name, child) = Memᴰ child subkeys × (r.stat_key child ≡ ok name)

    All-weaken :
        (id : K) (subkeys : List K) (named : List (Bytes × K))
        → All (IsChild subkeys) named
        → All (IsChild (id ∷ subkeys)) named
    All-weaken id subkeys [] h = tt
    All-weaken id subkeys ((name, child) ∷ named) h =
        ((Memᴰ.tail h.0.0, h.0.1), All-weaken id subkeys named h.1)

    stat_children-All :
        (subkeys : List K) (named : List (Bytes × K))
        → stat_children r subkeys ≡ ok named
        → All (IsChild subkeys) named
    unfolding stat_children
    stat_children-All [] named e = subst (All (IsChild [])) (ok-inj _ _ e) tt
    stat_children-All (id ∷ subkeys) named e =
        let (name, stat, e1) = bind-ok (r.stat_key id) _ _ e in
        let (rest, others, e2) = bind-ok (stat_children r subkeys) _ _ e1 in
        subst (All (IsChild (id ∷ subkeys))) (ok-inj _ named e2) (
          (Memᴰ.head refl, stat),
          All-weaken id subkeys rest (stat_children-All subkeys rest others),
        )

    -- Each key that the reader leads to has a path of fewer names than `depth`.
    abbrev Above : ℕ → List Bytes → K → Type 0
    Above depth path id = (at : List Bytes) (to : K) → LeadsTo r at to path id → length at < depth

    children-All :
        Permutes r
        → (depth : ℕ) (path : List Bytes) (id : K) → Above depth path id
        → (listed : List (Bytes × K)) → children r id ≡ ok listed
        → All (λ (name, child). Above depth (path ++ name ∷ []) child) listed
    unfolding children
    children-All orders depth path id above listed e =
        let (subkeys, read, e1) = bind-ok (r.subkeys id) _ _ e in
        let (named, stats, e2) = bind-ok (stat_children r subkeys) _ _ e1 in
        subst (All (λ (name, child). Above depth (path ++ name ∷ []) child)) (ok-inj _ listed e2) (
          All-perm _ (orders.of_children named)
            (below subkeys read named (stat_children-All subkeys named stats)))
      where
        below :
            (subkeys : List K)
            → r.subkeys id ≡ ok subkeys
            → (named : List (Bytes × K)) → All (IsChild subkeys) named
            → All (λ (name, child). Above depth (path ++ name ∷ []) child) named
        below subkeys read [] h = tt
        below subkeys read ((name, child) ∷ named) h = (
          λ at to leads. above at to (down subkeys child name read h.0.0 h.0.1 leads),
          below subkeys read named h.1,
        )

    walk_all-Answers :
        (next : Bytes × K → Option (Outcome TextError Bytes)) (listed : List (Bytes × K))
        → All (λ child. Answers (next child)) listed
        → Answers (walk_all r (key_text r utf16_encode) next listed)
    walk_all-Answers next [] h = (λ e. cc, λ e. cc)
    walk_all-Answers next (child ∷ listed) h =
        follow-Answers (next child) _ h.0 (walk_all-Answers next listed h.1)

    walk_listed-Answers :
        (next : Bytes × K → Option (Outcome TextError Bytes))
        (listed : Outcome TextError (List (Bytes × K)))
        → listed ≢ panic
        → ((l : List (Bytes × K)) → listed ≡ ok l → All (λ child. Answers (next child)) l)
        → Answers (walk_listed r (key_text r utf16_encode) next listed)
    walk_listed-Answers next panic h k = absurd (h refl)
    walk_listed-Answers next (err problem) h k = (λ e. cc, λ e. cc)
    walk_listed-Answers next (ok listed) h k = walk_all-Answers next listed (k listed refl)

    module _ (orders : Permutes r) where
      All-walk :
          (fuel depth : ℕ) (path : List Bytes) (listed : List (Bytes × K))
          → ((name : Bytes) (child : K)
              → Above depth (path ++ name ∷ []) child
              → Answers (walk r (key_text r utf16_encode) fuel (path ++ name ∷ []) child))
          → All (λ (name, child). Above depth (path ++ name ∷ []) child) listed
          → All
              (λ (name, child).
                Answers (walk r (key_text r utf16_encode) fuel (path ++ name ∷ []) child))
              listed
      All-walk fuel depth path [] h above = tt
      All-walk fuel depth path ((name, child) ∷ listed) h above =
          (h name child above.0, All-walk fuel depth path listed h above.1)

      walk-Answers :
          (fuel depth : ℕ) (path : List Bytes) (id : K)
          → depth ≤ length path + fuel
          → Above depth path id
          → Answers (walk r (key_text r utf16_encode) fuel path id)
      unfolding walk
      walk-Answers zero depth path id enough above =
          let beyond = above path id (here refl refl) in absurd (omega (arith, beyond))
      walk-Answers (suc fuel) depth path id enough above =
          follow-Answers (some (key_text r utf16_encode path id)) _
            (some-Answers _ (key_text-never r never utf16_encode path id))
            (walk_listed-Answers
              (λ (name, child). walk r (key_text r utf16_encode) fuel (path ++ name ∷ []) child)
              (children r id) (children-never r never id)
              λ listed e.
                All-walk fuel depth path listed
                  (λ name child.
                    walk-Answers fuel depth (path ++ name ∷ []) child
                      (omega (arith, length-append path (name ∷ []))))
                  (children-All orders depth path id above listed e))

    finish-Answers :
        (last : Bytes → Outcome TextError Bytes) (o : Option (Outcome TextError Bytes))
        → ((text : Bytes) → last text ≢ panic)
        → Answers o
        → Answers (finish last o)
    finish-Answers last none h k = absurd (k.0 refl)
    finish-Answers last (some panic) h k = absurd (k.1 refl)
    finish-Answers last (some (err problem)) h k = (λ e. cc, λ e. cc)
    finish-Answers last (some (ok text)) h k = some-Answers (last text) (h text)

    with_name-Answers :
        (o : Outcome TextError Bytes) (next : Bytes → Option (Outcome TextError Bytes))
        → o ≢ panic
        → ((name : Bytes) → o ≡ ok name → Answers (next name))
        → Answers (with_name o next)
    with_name-Answers panic next h k = absurd (h refl)
    with_name-Answers (err problem) next h k = (λ e. cc, λ e. cc)
    with_name-Answers (ok name) next h k = k name refl

    encode_text-never :
        (upper_name text : Bytes) (with_bom : Bool)
        → encode_text utf16_encode upper_name with_bom text ≢ panic
    unfolding encode_text
    encode_text-never upper_name text with_bom = ground arith

    -- ExportReg comes to an answer, a text or an error, and does not panic, whatever the encoding is
    -- called, when no method of the reader panics, the orders leave out nothing, and no key that the
    -- reader leads to from the root has a path of more names than there is fuel.
    pub export_reg-Answers :
        Permutes r
        → (fuel : ℕ) (root : K) (upper_name : Bytes) (with_bom : Bool)
        → ((name : Bytes)
            → r.stat_key root ≡ ok name
            → (at : List Bytes) (to : K) → LeadsTo r at to (name ∷ []) root
            → length at ≤ fuel)
        → Answers (export_reg r utf16_encode fuel root upper_name with_bom)
    unfolding export_reg export_key
    export_reg-Answers orders fuel root upper_name with_bom deep =
        with_name-Answers (r.stat_key root) _ (never.stat_key root) λ name stat.
          finish-Answers _ _ (λ text. encode_text-never upper_name _ with_bom)
            (walk-Answers orders fuel (suc fuel) (name ∷ []) root (omega arith)
              λ at to leads. omega (arith, deep name stat at to leads))
