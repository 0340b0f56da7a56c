-- ===== src/Regtext/Export/Keys.antt =====
-- What exportKey writes for the key itself, and ParseReg reads.
use mathlib.Core.List.{append_assoc, append-nil}
use hivekit.Common.{
  ◌≡◌, refl, sym, ap, ap₂, subst, ◌∙◌, Bool, false, List, [], ◌∷◌, ◌++◌, Outcome, ok, ◌>>=◌,
  bind-ok, ok-inj, ℕ, All,
}
use hivekit.Common.Bytes.{Bytes}
use hivekit.Format.Consts.{bytes_equal}
use hivekit.Regmerge.Ordering.{EditOp, set_value, create_key}
use hivekit.Regtext.Hex.{TextError}
use hivekit.Regtext.Values.{ValueMeta, crlf}
use hivekit.Regtext.Values.RoundTrip.{IsReader, come_back}
use hivekit.Regtext.Values.Names.{TrimsSpace, LineRead, emit_value-LineRead}
use hivekit.Regtext.Values.Marks.{IsSolid}
use hivekit.Regtext.Lines.{
  unlines, unlines-append, feeds, IsLine, feeds-emit_value, solid-IsLine, All-append,
}
use hivekit.Regtext.Parser.{ParseState}
use hivekit.Regtext.Parser.Accepts.{
  IsBody, CreatesOnce, created, CreatesOnce-append, Adds, Adds-append, value_line, empty_line,
  section_line, parse_lines-append, one_more, no_more,
}
use hivekit.Regtext.Export.OneLine.{HasOneLineNames, feeds-join_path, section-IsLine}
use hivekit.Regtext.Export.{KeyReader, join_path, emit_values, key_text}

module _ {K V : Type 0} (r : KeyReader K V) (utf16_encode : Bytes → List ℕ) where
  -- The operations that stand for the values of a key, in the order of the file.
  unfoldable pub value_ops : Bytes → List V → Outcome TextError (List EditOp)
  value_ops path [] = ok []
  value_ops path (id ∷ values) = do
    meta ← r.stat_value id
    (type, bytes) ← come_back utf16_encode r.reader id meta.type
    rest ← value_ops path values
    ok (set_value path meta.name type bytes ∷ rest)

  -- And for a key.
  unfoldable pub key_ops : List Bytes → K → Outcome TextError (List EditOp)
  key_ops path id = do
    values ← r.values id
    ops ← value_ops (join_path path) (r.sort_values values)
    ok (create_key (join_path path) ∷ ops)

  module _ (laws : IsReader r.reader) (plain : HasOneLineNames r) (trim_space : Bytes → Bytes)
      (trims : TrimsSpace trim_space) (allow : Bool) where
    record ValuesRead (path : Bytes) (values : List V) (text : Bytes) : Type 0 where
      lines : List Bytes
      ops : List EditOp
      printed : text ≡ unlines lines
      kept : All IsLine lines
      valued : value_ops path values ≡ ok ops
      none_created : (keys : List Bytes) → created ops keys ≡ keys
      taken :
          (st : ParseState)
          → IsBody st
          → st.current ≡ path
          → bytes_equal path [] ≡ false
          → Adds utf16_encode trim_space trims allow lines ops path st

    value_cons :
        (path : Bytes) (id : V) (meta : ValueMeta) (values : List V) (text rest : Bytes)
        → r.stat_value id ≡ ok meta
        → (one : LineRead utf16_encode trim_space trims path r.reader id meta text)
        → feeds one.line ≡ 0
        → ValuesRead path values rest
        → ValuesRead path (id ∷ values) (text ++ rest)
    unfolding value_ops
    value_cons path id meta values text rest stat one unfed more =
        let op : EditOp = set_value path meta.name one.type one.bytes in
        record {
          lines = one.line ∷ more.lines;
          ops = op ∷ more.ops;
          printed = ap₂ (λ a b. a ++ b) one.ended more.printed;
          kept = (solid-IsLine one.line unfed one.solid, more.kept);
          valued = rw (stat, one.back, more.valued) refl;
          none_created = more.none_created;
          taken = λ st body here named.
              let st1 : ParseState = record st { ops = st.ops ++ op ∷ [] } in
              let first =
                value_line utf16_encode trim_space trims allow one.line meta.name one.bytes path
                  one.type st one.solid one.plain body here named one.read in
              let later = more.taken st1 body here named in
              record {
                after = later.after;
                parsed =
                    one_more utf16_encode trim_space trims allow one.line more.lines st st1 first
                    ∙ later.parsed;
                body = later.body;
                added = later.added ∙ append_assoc st.ops (op ∷ []) more.ops;
                keys = later.keys;
                at = later.at;
              };
        }

    values-read :
        (path : Bytes) (values : List V) (text : Bytes)
        → emit_values r utf16_encode values ≡ ok text
        → ValuesRead path values text
    unfolding emit_values value_ops
    values-read path [] text e = record {
      lines = [];
      ops = [];
      printed = sym (ok-inj [] text e);
      kept = tt;
      valued = refl;
      none_created = λ keys. refl;
      taken = λ st body here named. record {
        after = st;
        parsed = no_more utf16_encode trim_space trims allow st;
        body = body;
        added = sym (append-nil st.ops);
        keys = refl;
        at = here;
      };
    }
    values-read path (id ∷ values) text e =
        let (meta, stat, e1) = bind-ok _ _ _ e in
        let (own, emitted, e2) = bind-ok _ _ _ e1 in
        let (rest, others, e3) = bind-ok _ _ _ e2 in
        let one =
          emit_value-LineRead utf16_encode trim_space trims path r.reader laws id meta own
            emitted in
        let more = values-read path values rest others in
        let unfed =
          feeds-emit_value utf16_encode r.reader plain.strings id meta one.line
            (plain.one_value id meta stat) (emitted ∙ ap ok one.ended) in
        subst (ValuesRead path (id ∷ values)) (ok-inj (own ++ rest) text e3)
          (value_cons path id meta values own rest stat one unfed more)

    -- Text that is read as operations, from any state behind the header in which each key that they
    -- create is a new section.
    pub record TextRead (text : Bytes) (ops : List EditOp) : Type 0 where
      pub lines : List Bytes
      pub printed : text ≡ unlines lines
      pub kept : All IsLine lines
      pub taken :
          (st : ParseState)
          → IsBody st
          → CreatesOnce ops st.seen_keys
          → (current : Bytes) × Adds utf16_encode trim_space trims allow lines ops current st

    key_lines : Bytes → List Bytes → List Bytes
    key_lines path lines = (b'[' ∷ path ++ b']' ∷ []) ∷ lines ++ [] ∷ []

    key_cons :
        (path : Bytes) (values : List V) (text : Bytes) (own : ValuesRead path values text)
        → feeds path ≡ 0
        → TextRead ((b'[' ∷ path ++ b']' ∷ crlf) ++ (text ++ crlf)) (create_key path ∷ own.ops)
    unfolding key_lines IsSolid
    key_cons path values text own unfed = record {
      lines = key_lines path own.lines;
      kept = (
        section-IsLine path unfed,
        All-append IsLine own.lines ([] ∷ []) own.kept
            (solid-IsLine [] (unfold feeds in refl) tt, tt),
      );
      printed =
          let ended : unlines (own.lines ++ [] ∷ []) ≡ text ++ crlf =
            unlines-append own.lines ([] ∷ []) ∙ ap (λ t. t ++ crlf) (sym own.printed) in
          ap₂ (λ a b. b'[' ∷ (a ++ b)) (sym (append_assoc path (b']' ∷ []) crlf)) (sym ended);
      taken = λ st body (section, fresh, rest).
          let op : EditOp = create_key path in
          let st1 : ParseState = record st {
            ops = st.ops ++ op ∷ [];
            seen_keys = path ∷ st.seen_keys;
            current = path;
          } in
          let first = section_line utf16_encode trim_space trims allow path st section fresh body in
          let values_added = own.taken st1 body refl section.0 in
          let blank =
            parse_lines-append utf16_encode trim_space trims allow own.lines ([] ∷ []) st1
              values_added.after values_added.parsed
            ∙ one_more utf16_encode trim_space trims allow [] [] values_added.after
                values_added.after
                (empty_line utf16_encode trim_space trims allow values_added.after
                  values_added.body.1)
            ∙ no_more utf16_encode trim_space trims allow values_added.after in
          (
            path,
            record {
              after = values_added.after;
              parsed =
                  one_more utf16_encode trim_space trims allow (b'[' ∷ path ++ b']' ∷ [])
                    (own.lines ++ [] ∷ []) st st1 first
                  ∙ blank;
              body = values_added.body;
              added = values_added.added ∙ append_assoc st.ops (op ∷ []) own.ops;
              keys = values_added.keys;
              at = values_added.at;
            },
          );
    }

    pub text-append :
        (a b : Bytes) (ops more : List EditOp)
        → TextRead a ops
        → TextRead b more
        → TextRead (a ++ b) (ops ++ more)
    text-append a b ops more first second = record {
      lines = first.lines ++ second.lines;
      kept = All-append IsLine first.lines second.lines first.kept second.kept;
      printed =
          ap₂ (λ s t. s ++ t) first.printed second.printed
          ∙ sym (unlines-append first.lines second.lines);
      taken = λ st body once.
          let (own, others) = CreatesOnce-append ops more st.seen_keys once in
          let (here, added) = first.taken st body own in
          let (there, later) =
            second.taken added.after added.body
              (subst (CreatesOnce more) (sym added.keys) others) in
          (
            there,
            Adds-append utf16_encode trim_space trims allow first.lines second.lines ops more here
                there st added later,
          );
    }

    pub key-read :
        (path : List Bytes) (id : K) (text : Bytes)
        → All (λ name. feeds name ≡ 0) path
        → key_text r utf16_encode path id ≡ ok text
        → (ops : List EditOp) × (key_ops path id ≡ ok ops) × TextRead text ops
    unfolding key_text key_ops
    key-read path id text unfed e =
        let (values, stored, e1) = bind-ok (r.values id) _ _ e in
        let (own, emitted, e2) =
          bind-ok (emit_values r utf16_encode (r.sort_values values)) _ _ e1 in
        let read = values-read (join_path path) (r.sort_values values) own emitted in
        (
          create_key (join_path path) ∷ read.ops,
          rw (stored, read.valued) refl,
          subst (λ t. TextRead t (create_key (join_path path) ∷ read.ops)) (ok-inj _ text e2)
              (key_cons (join_path path) (r.sort_values values) own read
                (feeds-join_path path unfed)),
        )
