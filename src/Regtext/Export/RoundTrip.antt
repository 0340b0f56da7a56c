-- ===== src/Regtext/Export/RoundTrip.antt =====
-- What ExportReg writes and ParseReg reads.
use mathlib.Core.List.{append-nil}
use hivekit.Common.{
  ℕ, zero, suc, ◌≡◌, refl, sym, ap, subst, Bool, List, [], ◌∷◌, ◌++◌, Option, none, some, Outcome,
  ok, err, panic, All, some_ok-inj, some-inj,
}
use hivekit.Common.Bytes.{Bytes}
use hivekit.Regmerge.Ordering.{EditOp}
use hivekit.Regtext.Hex.{TextError}
use hivekit.Regtext.Values.RoundTrip.{IsReader}
use hivekit.Regtext.Values.Names.{TrimsSpace}
use hivekit.Regtext.Parser.Accepts.{CreatesOnce, no_more}
use hivekit.Regtext.Export.{
  KeyReader, follow, with_name, walk_all, walk_listed, walk, children, key_text,
}
use hivekit.Regtext.Lines.{feeds, All-append}
use hivekit.Regtext.Export.OneLine.{HasOneLineNames, children-one_line}
use hivekit.Regtext.Export.Keys.{key_ops, TextRead, text-append, key-read}

-- Each key of the document is created once, as a section.
abbrev pub SectionsOnce : Option (Outcome TextError (List EditOp)) → Type 0
SectionsOnce none = Unit
SectionsOnce (some panic) = Unit
SectionsOnce (some (err problem)) = Unit
SectionsOnce (some (ok ops)) = CreatesOnce ops []

module _ {K V : Type 0} (r : KeyReader K V) (utf16_encode : Bytes → List ℕ) where
  -- The operations that stand for the root and all that is below it, in the order of the export.
  unfoldable pub document_ops : ℕ → K → Option (Outcome TextError (List EditOp))
  unfolding walk
  document_ops fuel root =
      with_name (r.stat_key root) λ name. walk r (key_ops r utf16_encode) fuel (name ∷ []) root

  module _ (laws : IsReader r.reader) (plain : HasOneLineNames r) (trim_space : Bytes → Bytes)
      (trims : TrimsSpace trim_space) (allow : Bool) where
    -- The parser's reading of a text, under the parameters of this section.
    abbrev ReadText : Bytes → List EditOp → Type 0
    ReadText = TextRead r utf16_encode laws plain trim_space trims allow

    -- A print and the operations that it is read as: if there is text, it is read so.
    unfoldable pub ReadsAs :
        Option (Outcome TextError Bytes) → Option (Outcome TextError (List EditOp)) → Type 0
    ReadsAs print meant =
        (text : Bytes)
        → print ≡ some (ok text)
        → (ops : List EditOp) × (meant ≡ some (ok ops)) × ReadText text ops

    empty-ReadsAs : ReadsAs (some (ok [])) (some (ok []))
    unfolding ReadsAs
    empty-ReadsAs text e = (
      [],
      refl,
      subst (λ t. ReadText t []) (some_ok-inj [] text e)
          (record {
            lines = [];
            printed = refl;
            kept = tt;
            taken = λ st body once. (
              st.current,
              record {
                after = st;
                parsed = no_more utf16_encode trim_space trims allow st;
                body = body;
                added = sym (append-nil st.ops);
                keys = refl;
                at = refl;
              },
            );
          }),
    )

    follow-ReadsAs :
        (p p' : Option (Outcome TextError Bytes)) (q q' : Option (Outcome TextError (List EditOp)))
        → ReadsAs p q
        → ReadsAs p' q'
        → ReadsAs (follow p p') (follow q q')
    unfolding ReadsAs
    follow-ReadsAs none p' q q' h k text e = cc
    follow-ReadsAs (some panic) p' q q' h k text e = cc
    follow-ReadsAs (some (err problem)) p' q q' h k text e = cc
    follow-ReadsAs (some (ok a)) none q q' h k text e = cc
    follow-ReadsAs (some (ok a)) (some panic) q q' h k text e = cc
    follow-ReadsAs (some (ok a)) (some (err problem)) q q' h k text e = cc
    follow-ReadsAs (some (ok a)) (some (ok b)) q q' h k text e =
        let (ops, meant, read) = h a refl in
        let (more, meant', read') = k b refl in
        (
          ops ++ more,
          rw (meant, meant') refl,
          subst (λ t. ReadText t (ops ++ more)) (some_ok-inj (a ++ b) text e)
              (text-append r utf16_encode laws plain trim_space trims allow a b ops more read
                read'),
        )

    -- What is printed of a child is read as the operations that stand for it.
    abbrev ChildReadsAs :
        (Bytes × K → Option (Outcome TextError Bytes))
        → (Bytes × K → Option (Outcome TextError (List EditOp)))
        → Bytes × K
        → Type 0
    ChildReadsAs next next' child = ReadsAs (next child) (next' child)

    walk_all-ReadsAs :
        (next : Bytes × K → Option (Outcome TextError Bytes))
        (next' : Bytes × K → Option (Outcome TextError (List EditOp))) (listed : List (Bytes × K))
        → All (λ (name, id). feeds name ≡ 0) listed
        → ((child : Bytes × K) → feeds child.0 ≡ 0 → ChildReadsAs next next' child)
        → ReadsAs
            (walk_all r (key_text r utf16_encode) next listed)
            (walk_all r (key_ops r utf16_encode) next' listed)
    walk_all-ReadsAs next next' [] one_line h = empty-ReadsAs
    walk_all-ReadsAs next next' (child ∷ listed) one_line h =
        follow-ReadsAs (next child) _ (next' child) _ (h child one_line.0)
          (walk_all-ReadsAs next next' listed one_line.1 h)

    walk_listed-ReadsAs :
        (next : Bytes × K → Option (Outcome TextError Bytes))
        (next' : Bytes × K → Option (Outcome TextError (List EditOp)))
        (listed : Outcome TextError (List (Bytes × K)))
        → ((l : List (Bytes × K)) → listed ≡ ok l → All (λ (name, id). feeds name ≡ 0) l)
        → ((child : Bytes × K) → feeds child.0 ≡ 0 → ChildReadsAs next next' child)
        → ReadsAs
            (walk_listed r (key_text r utf16_encode) next listed)
            (walk_listed r (key_ops r utf16_encode) next' listed)
    unfolding ReadsAs
    walk_listed-ReadsAs next next' panic one_line h text e = cc
    walk_listed-ReadsAs next next' (err problem) one_line h text e = cc
    walk_listed-ReadsAs next next' (ok listed) one_line h text e =
        walk_all-ReadsAs next next' listed (one_line listed refl) h text e

    pub walk-ReadsAs :
        (fuel : ℕ) (path : List Bytes) (id : K)
        → All (λ name. feeds name ≡ 0) path
        → ReadsAs
            (walk r (key_text r utf16_encode) fuel path id)
            (walk r (key_ops r utf16_encode) fuel path id)
    unfolding walk ReadsAs
    walk-ReadsAs zero path id unfed text e = cc
    walk-ReadsAs (suc fuel) path id unfed text e =
        let piece : ReadsAs (some (key_text r utf16_encode path id))
            (some (key_ops r utf16_encode path id)) =
          λ own printed.
            let (ops, meant, read) =
              key-read r utf16_encode laws plain trim_space trims allow path id own unfed
                (some-inj _ _ printed) in
            (ops, ap some meant, read) in
        let below =
          walk_listed-ReadsAs
            (λ (name, child). walk r (key_text r utf16_encode) fuel (path ++ name ∷ []) child)
            (λ (name, child). walk r (key_ops r utf16_encode) fuel (path ++ name ∷ []) child)
            (children r id) (children-one_line r plain id)
            (λ (name, child) one_line.
              walk-ReadsAs fuel (path ++ name ∷ []) child
                (All-append (λ n. feeds n ≡ 0) path (name ∷ []) unfed (one_line, tt))) in
        follow-ReadsAs _ _ _ _ piece below text e
