-- ===== src/Regtext/Export/Imported.antt =====
-- ExportReg, and then ParseReg on what it wrote.
use hivekit.Common.{
  ℕ, length, ◌<◌, ◌≡◌, refl, sym, ap, subst, ◌∙◌, arith, Bool, true, List, [], ◌∷◌, ◌++◌, Option,
  none, some, Outcome, ok, err, panic, All,
}
use hivekit.Common.Bytes.{Bytes}
use hivekit.Common.Text.{has_prefix}
use hivekit.Format.Consts.{bytes_equal}
use hivekit.Regmerge.Ordering.{EditOp}
use hivekit.Regtext.Hex.{TextError}
use hivekit.Regtext.Values.{crlf}
use hivekit.Regtext.Values.RoundTrip.{IsReader}
use hivekit.Regtext.Values.Marks.{IsSolid, last_byte}
use hivekit.Regtext.Values.Names.{TrimsSpace}
use hivekit.Regtext.Parser.{
  reg_file_header, start, ParseState, parse_text, parse_lines, parse_scanned,
}
use hivekit.Regtext.Parser.Accepts.{CreatesOnce, solid_line, empty_line, one_more}
use hivekit.Regtext.Export.{KeyReader, with_name, walk, export_key, export_reg}
use hivekit.Regtext.Lines.{unlines, feeds, IsLine}
use hivekit.Regtext.Export.OneLine.{HasOneLineNames}
use hivekit.Regtext.Export.Keys.{key_ops, TextRead}
use hivekit.Regtext.Parser.{ends_with, decode_input_to_bytes, parse_reg}
use hivekit.Regtext.Lines.{IsScanner, scanner_max_line_size}
use hivekit.Regtext.Export.Finished.{IsUtf8, finish-ok, with_name-ok}
use hivekit.Regtext.Export.RoundTrip.{SectionsOnce, document_ops, ReadsAs, walk-ReadsAs}

-- A text that begins with the header has no byte order mark.
decode_header :
    (utf16_decode : List ℕ → Bytes) (upper : Bytes → Bytes) (enc text behind : Bytes)
    → IsUtf8 (upper enc)
    → text ≡ reg_file_header ++ behind
    → decode_input_to_bytes utf16_decode upper text enc ≡ ok text
unfolding decode_input_to_bytes has_prefix
decode_header utf16_decode upper enc text behind utf8 headed =
    let p = ap (λ t. has_prefix t (0xFF ∷ 0xFE ∷ [])) headed in
    let q = ap (λ t. has_prefix t (0xEF ∷ 0xBB ∷ 0xBF ∷ [])) headed in ground (arith, p, q, utf8)

module _ {K V : Type 0} (r : KeyReader K V) (utf16_encode : Bytes → List ℕ) where
  module _ (laws : IsReader r.reader) (plain : HasOneLineNames r) (trim_space : Bytes → Bytes)
      (trims : TrimsSpace trim_space) (allow : Bool) where
    -- The lines of an exported text, and that ParseReg makes the operations of the document of them.
    record DocumentRead (fuel : ℕ) (root : K) (text : Bytes) : Type 0 where
      lines : List Bytes
      ops : List EditOp
      behind : Bytes
      headed : text ≡ reg_file_header ++ behind
      printed : text ≡ unlines lines
      kept : All IsLine lines
      meant : document_ops r utf16_encode fuel root ≡ some (ok ops)
      read : parse_scanned utf16_encode trim_space allow (lines, none) ≡ some (ok ops)

    header_read :
        (lines : List Bytes)
        → parse_lines utf16_encode trim_space allow (reg_file_header ∷ [] ∷ lines) start
          ≡ parse_lines utf16_encode trim_space allow lines (record start { seen_header = true })
    unfolding IsSolid last_byte parse_text bytes_equal
    header_read lines =
        let st : ParseState = record start { seen_header = true } in
        one_more utf16_encode trim_space trims allow reg_file_header ([] ∷ lines) start st
          (solid_line utf16_encode trim_space trims allow reg_file_header start (refl, refl) refl)
        ∙ one_more utf16_encode trim_space trims allow [] lines st st
            (empty_line utf16_encode trim_space trims allow st refl)

    scanned :
        (lines : List Bytes) (st : ParseState)
        → parse_lines utf16_encode trim_space allow lines start ≡ some (ok st)
        → parse_scanned utf16_encode trim_space allow (lines, none) ≡ some (ok st.ops)
    unfolding parse_scanned
    scanned lines st h = ground (arith, h)

    document-read :
        (fuel : ℕ) (root : K) (body : Bytes) (ops : List EditOp)
        → document_ops r utf16_encode fuel root ≡ some (ok ops)
        → CreatesOnce ops []
        → TextRead r utf16_encode laws plain trim_space trims allow body ops
        → DocumentRead fuel root (reg_file_header ++ crlf ++ crlf ++ body)
    document-read fuel root body ops meant once text =
        let (current, added) = text.taken (record start { seen_header = true }) (refl, refl) once in
        record {
          lines = reg_file_header ∷ [] ∷ text.lines;
          ops = ops;
          behind = crlf ++ crlf ++ body;
          headed = refl;
          kept = (
            unfold feeds ends_with in (refl, refl),
            (unfold feeds ends_with in (refl, refl), text.kept),
          );
          printed = ap (λ t. reg_file_header ++ crlf ++ crlf ++ t) text.printed;
          meant = meant;
          read =
              scanned (reg_file_header ∷ [] ∷ text.lines) added.after
                (header_read text.lines ∙ added.parsed)
              ∙ ap (λ o. some (ok o)) added.added;
        }

    root-read :
        (fuel : ℕ) (root : K) (text name : Bytes)
        → r.stat_key root ≡ ok name
        → SectionsOnce (document_ops r utf16_encode fuel root)
        → (body : Bytes) → export_key r utf16_encode fuel (name ∷ []) root ≡ some (ok body)
        → text ≡ reg_file_header ++ crlf ++ crlf ++ body
        → DocumentRead fuel root text
    unfolding export_key document_ops ReadsAs
    root-read fuel root text name named once body printed whole =
        let (ops, meant, read) =
          walk-ReadsAs r utf16_encode laws plain trim_space trims allow fuel (name ∷ []) root
            (plain.one_name root name named, tt) body printed in
        let all : document_ops r utf16_encode fuel root ≡ some (ok ops) =
          ap (λ o. with_name o λ n. walk r (key_ops r utf16_encode) fuel (n ∷ []) root) named
          ∙ meant in
        subst (DocumentRead fuel root) (sym whole)
          (document-read fuel root body ops all (subst SectionsOnce all once) read)

    export_reg-DocumentRead :
        (fuel : ℕ) (root : K) (upper_name text : Bytes) (with_bom : Bool)
        → IsUtf8 upper_name
        → SectionsOnce (document_ops r utf16_encode fuel root)
        → export_reg r utf16_encode fuel root upper_name with_bom ≡ some (ok text)
        → DocumentRead fuel root text
    unfolding export_reg
    export_reg-DocumentRead fuel root upper_name text with_bom utf8 once e =
        let (name, named, e1) = with_name-ok (r.stat_key root) _ text e in
        let (body, printed, whole) =
          finish-ok utf16_encode upper_name with_bom
            (export_key r utf16_encode fuel (name ∷ []) root) text utf8 e1 in
        root-read fuel root text name named once body printed whole

    -- What ExportReg writes, in UTF-8, ParseReg reads without an error, and it gives the
    -- operations of the document: for each key its creation and the writes of its values, and
    -- then its subkeys. The names and strings of the hive have no line feeds, each key of the
    -- document is a new section, the text is shorter than the scanner's longest line, and it is
    -- named as UTF-8. This is for any order of the values and the subkeys that brings in no other
    -- name, any reader that gives bytes and DWORDs of 32 bits, and any bufio.Scanner and
    -- bytes.TrimSpace that do what they promise.
    pub export_reg-parse_reg :
        (utf16_decode : List ℕ → Bytes) (upper : Bytes → Bytes)
        (scan : Bytes → List Bytes × Option TextError)
        → IsScanner scan
        → (fuel : ℕ) (root : K) (upper_name enc text : Bytes) (with_bom : Bool) → IsUtf8 upper_name
        → IsUtf8 (upper enc)
        → SectionsOnce (document_ops r utf16_encode fuel root)
        → export_reg r utf16_encode fuel root upper_name with_bom ≡ some (ok text)
        → length text < scanner_max_line_size
        → (ops : List EditOp) × (document_ops r utf16_encode fuel root ≡ some (ok ops))
          × (parse_reg utf16_decode upper scan utf16_encode trim_space allow text enc
              ≡ some (ok ops))
    unfolding parse_reg
    export_reg-parse_reg utf16_decode upper scan scanner fuel root upper_name enc text with_bom utf8
          utf8' once e short =
        let d = export_reg-DocumentRead fuel root upper_name text with_bom utf8 once e in
        let plain_text = decode_header utf16_decode upper enc text d.behind utf8' d.headed in
        let split : scan text ≡ (d.lines, none) =
          ap scan d.printed
          ∙ scanner.scans d.lines d.kept
              (subst (λ t. length t < scanner_max_line_size) d.printed short) in
        (
          d.ops,
          d.meant,
          ap
                (λ (o : Outcome TextError Bytes). elim o [
                  | panic ↦ some panic
                  | err problem ↦ some (err problem)
                  | ok t ↦ parse_scanned utf16_encode trim_space allow (scan t)
                ])
                plain_text
              ∙ ap (parse_scanned utf16_encode trim_space allow) split
              ∙ d.read,
        )
