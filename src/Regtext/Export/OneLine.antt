-- ===== src/Regtext/Export/OneLine.antt =====
-- Exports in which every name stands in one line.
use hivekit.Common.{◌≡◌, refl, sym, subst, arith, List, [], ◌∷◌, ◌++◌, All, ok, bind-ok, ok-inj}
use hivekit.Common.Bytes.{Bytes}
use hivekit.Common.Text.{backslash}
use hivekit.Regtext.Values.{ValueMeta}
use hivekit.Regtext.Values.Marks.{IsMark, IsSolid, last_byte-append}
use hivekit.Regtext.Lines.{feeds, feeds-append, IsLine, IsOneLine, solid-IsLine}
use hivekit.Regtext.Export.{KeyReader, join_path, stat_children, children}

-- A reader whose names and strings have no line feed, and an order that brings in no other name.
pub record HasOneLineNames {K V : Type 0} (r : KeyReader K V) : Type 0 where
  pub strings : IsOneLine r.reader
  pub one_name : (id : K) (name : Bytes) → r.stat_key id ≡ ok name → feeds name ≡ 0
  pub one_value : (id : V) (meta : ValueMeta) → r.stat_value id ≡ ok meta → feeds meta.name ≡ 0
  pub sorted :
      (named : List (Bytes × K))
      → All (λ (name, id). feeds name ≡ 0) named
      → All (λ (name, id). feeds name ≡ 0) (r.sort_children named)

pub feeds-join_path :
    (path : List Bytes) → All (λ name. feeds name ≡ 0) path → feeds (join_path path) ≡ 0
unfolding join_path feeds
feeds-join_path [] h = refl
feeds-join_path (name ∷ []) h = h.0
feeds-join_path (name ∷ next ∷ path) h =
    let rest = feeds-join_path (next ∷ path) h.1 in
    omega (arith, h.0, rest, feeds-append name (backslash ∷ join_path (next ∷ path)))

pub section-IsLine : (path : Bytes) → feeds path ≡ 0 → IsLine (b'[' ∷ path ++ b']' ∷ [])
unfolding feeds IsSolid
section-IsLine path h =
    solid-IsLine (b'[' ∷ path ++ b']' ∷ []) (omega (arith, h, feeds-append path (b']' ∷ [])))
      (refl, subst IsMark (sym (last_byte-append path [] b'[' b']')) refl)

module _ {K V : Type 0} (r : KeyReader K V) (plain : HasOneLineNames r) where
  stat_children-one_line :
      (subkeys : List K) (named : List (Bytes × K))
      → stat_children r subkeys ≡ ok named
      → All (λ (name, id). feeds name ≡ 0) named
  unfolding stat_children
  stat_children-one_line [] named e =
      subst (All (λ (name, id). feeds name ≡ 0)) (ok-inj [] named e) tt
  stat_children-one_line (id ∷ subkeys) named e =
      let (name, stat, e1) = bind-ok _ _ _ e in
      let (rest, others, e2) = bind-ok _ _ _ e1 in
      subst (All (λ (name, id). feeds name ≡ 0)) (ok-inj ((name, id) ∷ rest) named e2)
        (plain.one_name id name stat, stat_children-one_line subkeys rest others)

  pub children-one_line :
      (id : K) (listed : List (Bytes × K))
      → children r id ≡ ok listed
      → All (λ (name, id). feeds name ≡ 0) listed
  unfolding children
  children-one_line id listed e =
      let (subkeys, found, e1) = bind-ok (r.subkeys id) _ _ e in
      let (named, stats, e2) = bind-ok (stat_children r subkeys) _ _ e1 in
      subst (All (λ (name, id). feeds name ≡ 0)) (ok-inj (r.sort_children named) listed e2)
        (plain.sorted named (stat_children-one_line subkeys named stats))
