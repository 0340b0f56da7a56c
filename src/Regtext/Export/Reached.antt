-- ===== src/Regtext/Export/Reached.antt =====
-- The keys below a key as the reader gives them, parts of a text, and runs of two parts.
use mathlib.Core.List.{Memᴰ, Permᴰ, append_assoc, append-nil}
use mathlib.Core.List.Memᴰ
use hivekit.Common.{
  ◌≡◌, refl, sym, ap, ap₂, subst, ◌∙◌, List, [], ◌∷◌, ◌++◌, Option, none, some, Outcome, ok, err,
  panic, bind-ok, ok-inj, some_ok-inj,
}
use hivekit.Common.Bytes.{Bytes}
use hivekit.Regtext.Hex.{TextError}
use hivekit.Regtext.Export.{KeyReader, follow, stat_children}

-- What sort.Slice promises of the two orders: they leave out nothing and bring in nothing.
pub record Permutes {K V : Type 0} (r : KeyReader K V) : Type 0 where
  pub of_values : (values : List V) → Permᴰ values (r.sort_values values)
  pub of_children : (named : List (Bytes × K)) → Permᴰ named (r.sort_children named)

-- A part of a text.
pub record IsPart (part whole : Bytes) : Type 0 where
  pub before : Bytes
  pub behind : Bytes
  pub split : whole ≡ before ++ (part ++ behind)

pub IsPart-left : (part a b : Bytes) → IsPart part a → IsPart part (a ++ b)
IsPart-left part a b p = record {
  before = p.before;
  behind = p.behind ++ b;
  split =
      ap (λ t. t ++ b) p.split
      ∙ append_assoc p.before (part ++ p.behind) b
      ∙ ap (λ t. p.before ++ t) (append_assoc part p.behind b);
}

pub IsPart-right : (part a b : Bytes) → IsPart part b → IsPart part (a ++ b)
IsPart-right part a b p = record {
  before = a ++ p.before;
  behind = p.behind;
  split = ap (λ t. a ++ t) p.split ∙ sym (append_assoc a p.before (part ++ p.behind));
}

pub IsPart-self : (a : Bytes) → IsPart a a
IsPart-self a = record { before = []; behind = []; split = sym (append-nil a) }

pub follow-ok :
    {A : Type 0} (p q : Option (Outcome TextError (List A))) (xs : List A)
    → follow p q ≡ some (ok xs)
    → (a : List A) × (b : List A) × (p ≡ some (ok a)) × (q ≡ some (ok b)) × (xs ≡ a ++ b)
follow-ok none q xs e = cc
follow-ok (some panic) q xs e = cc
follow-ok (some (err problem)) q xs e = cc
follow-ok (some (ok a)) none xs e = cc
follow-ok (some (ok a)) (some panic) xs e = cc
follow-ok (some (ok a)) (some (err problem)) xs e = cc
follow-ok (some (ok a)) (some (ok b)) xs e = (a, b, refl, refl, sym (some_ok-inj (a ++ b) xs e))

module _ {K V : Type 0} (r : KeyReader K V) where
  -- From a key with a path the reader leads down to the key `to`, whose path is `at`: it is that key,
  -- or one of its subkeys leads there.
  pub data LeadsTo (at : List Bytes) (to : K) : List Bytes → K → Type 0 where
    here : {path : List Bytes} {id : K} → path ≡ at → id ≡ to → LeadsTo at to path id
    down :
        {path : List Bytes} {id : K} (subkeys : List K) (child : K) (name : Bytes)
        → r.subkeys id ≡ ok subkeys
        → Memᴰ child subkeys
        → r.stat_key child ≡ ok name
        → LeadsTo at to (path ++ name ∷ []) child
        → LeadsTo at to path id

  pub stat_children-Memᴰ :
      (subkeys : List K) (named : List (Bytes × K)) (child : K) (name : Bytes)
      → stat_children r subkeys ≡ ok named
      → Memᴰ child subkeys
      → r.stat_key child ≡ ok name
      → Memᴰ (name, child) named
  unfolding stat_children
  stat_children-Memᴰ [] named child name e m stat = absurd (Memᴰ.not-nil m)
  stat_children-Memᴰ (id ∷ subkeys) named child name e (Memᴰ.head same) stat =
      let (first, stat', e1) = bind-ok (r.stat_key id) _ _ e in
      let (rest, others, e2) = bind-ok (stat_children r subkeys) _ _ e1 in
      let named_so : name ≡ first = ok-inj _ _ (sym stat ∙ ap (λ k. r.stat_key k) same ∙ stat') in
      subst (Memᴰ (name, child)) (ok-inj _ named e2) (Memᴰ.head (ap₂ (λ n k. (n, k)) named_so same))
  stat_children-Memᴰ (id ∷ subkeys) named child name e (Memᴰ.tail m) stat =
      let (first, stat', e1) = bind-ok (r.stat_key id) _ _ e in
      let (rest, others, e2) = bind-ok (stat_children r subkeys) _ _ e1 in
      subst (Memᴰ (name, child)) (ok-inj _ named e2)
        (Memᴰ.tail (stat_children-Memᴰ subkeys rest child name others m stat))
