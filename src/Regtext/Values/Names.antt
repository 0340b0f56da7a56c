-- ===== src/Regtext/Values/Names.antt =====
-- The line of a value, with its name in front.
use mathlib.Core.List.{append_assoc, append-nil}
use hivekit.Common.{
  ℕ, suc, ◌+◌, ◌≡◌, refl, sym, ap, subst, ◌∙◌, arith, false, List, [], ◌∷◌, ◌++◌, some, length,
  drop, ok, bind-ok, ok-inj,
}
use hivekit.Common.Bytes.{Bytes}
use hivekit.Common.Text.{codes, has_prefix}
use hivekit.Format.Consts.{bytes_equal}
use hivekit.Regmerge.Ordering.{set_value}
use hivekit.Regtext.Text.{quote, escape_string}
use hivekit.Regtext.Text.Escaped.{
  unescape_reg_string-escape_string, find_closing_quote-escape_string,
}
use hivekit.Regtext.Hex.RoundTrip.{drop-behind}
use hivekit.Regtext.Values.{
  ValueMeta, Reader, crlf, emit_name, emit_value, parse_trimmed, parse_value, parse_value_line,
}
use hivekit.Regtext.Values.Marks.{IsSolid, IsMark, last_byte, last_byte-append}
use hivekit.Regtext.Values.Line.{slice-quoted}
use hivekit.Regtext.Values.RoundTrip.{IsReader, come_back, IsRead, data-Agree}

-- bytes.TrimSpace leaves text without white space at its ends as it is.
abbrev pub TrimsSpace : (Bytes → Bytes) → Type 0
TrimsSpace trim_space = (b : Bytes) → IsSolid b → trim_space b ≡ b

drop-quoted : (p : Bytes) (q x : ℕ) (s : Bytes) → drop (1 + length p + 1) (q ∷ p ++ x ∷ s) ≡ s
drop-quoted p q x s =
    let e : 1 + length p + 1 ≡ suc (length p) + 1 = omega arith in
    ap (λ n. drop n (q ∷ (p ++ x ∷ s))) e ∙ drop-behind (q ∷ p) x s

line-IsSolid : (name text : Bytes) → IsSolid text → IsSolid (emit_name name ++ text)
unfolding last_byte emit_name IsSolid
line-IsSolid [] [] h = (refl, refl)
line-IsSolid (c ∷ name) [] h = (
  refl,
  subst IsMark
      (sym (
        ap (last_byte quote) (append-nil (escape_string (c ∷ name) ++ codes "\"="))
        ∙ last_byte-append (escape_string (c ∷ name)) (b'=' ∷ []) quote quote))
      refl,
)
line-IsSolid [] (y ∷ s) h = (refl, h.1)
line-IsSolid (c ∷ name) (y ∷ s) h = (
  refl,
  subst IsMark (sym (last_byte-append (escape_string (c ∷ name) ++ codes "\"=") s quote y)) h.1,
)

-- A line that is not empty and begins neither as a comment nor as a section.
abbrev pub IsPlain : Bytes → Type 0
IsPlain line =
    (bytes_equal line [] ≡ false)
    × (has_prefix line (codes ";") ≡ false)
    × (has_prefix line (codes "[") ≡ false)

line-IsPlain : (name text : Bytes) → IsPlain (emit_name name ++ text)
unfolding has_prefix emit_name bytes_equal
line-IsPlain [] text = (refl, refl, refl)
line-IsPlain (c ∷ name) text = (refl, refl, refl)

module _ (utf16_encode : Bytes → List ℕ) (trim_space : Bytes → Bytes)
    (trims : TrimsSpace trim_space) (path : Bytes) where
  named_line :
      (name text : Bytes)
      → parse_value_line utf16_encode trim_space path
          (quote ∷ escape_string name ++ quote ∷ b'=' ∷ text)
        ≡ parse_value utf16_encode trim_space path name text
  unfolding parse_value_line has_prefix
  named_line name text =
      let esc : Bytes = escape_string name in
      let e = find_closing_quote-escape_string name (b'=' ∷ text) in
      let u = unescape_reg_string-escape_string name in
      let n = slice-quoted esc (quote ∷ b'=' ∷ text) quote in
      let rest = drop-quoted esc quote quote (b'=' ∷ text) in ground (arith, e, u, n, rest)

  trimmed-read :
      (name text : Bytes) (d : ℕ × Bytes)
      → IsRead utf16_encode path name text d
      → parse_value utf16_encode trim_space path name text ≡ some (ok (set_value path name d.0 d.1))
  unfolding parse_value
  trimmed-read name text d (solid, read) =
      ap (parse_trimmed utf16_encode path name) (trims text solid) ∙ read

  name-read :
      (name text : Bytes) (d : ℕ × Bytes)
      → IsRead utf16_encode path name text d
      → parse_value_line utf16_encode trim_space path (emit_name name ++ text)
        ≡ some (ok (set_value path name d.0 d.1))
  unfolding emit_name
  name-read [] text d read = unfold parse_value_line has_prefix in trimmed-read [] text d read
  name-read (c ∷ name) text d read =
      let assoc = append_assoc (escape_string (c ∷ name)) (codes "\"=") text in
      ap (λ s. parse_value_line utf16_encode trim_space path (quote ∷ s)) assoc
      ∙ named_line (c ∷ name) text
      ∙ trimmed-read (c ∷ name) text d read

  -- The line of a value, behind which emitValue writes a CRLF: it has no white space at its ends,
  -- begins as no comment and no section does, and is read as what comes back of the value.
  pub record LineRead {V : Type 0} (r : Reader V) (id : V) (meta : ValueMeta) (text : Bytes)
      : Type 0 where
    pub line : Bytes
    pub type : ℕ
    pub bytes : Bytes
    pub ended : text ≡ line ++ crlf
    pub solid : IsSolid line
    pub plain : IsPlain line
    pub back : come_back utf16_encode r id meta.type ≡ ok (type, bytes)
    pub read :
        parse_value_line utf16_encode trim_space path line
        ≡ some (ok (set_value path meta.name type bytes))

  pub emit_value-LineRead :
      {V : Type 0} (r : Reader V)
      → IsReader r
      → (id : V) (meta : ValueMeta) (text : Bytes) → emit_value utf16_encode r id meta ≡ ok text
      → LineRead r id meta text
  unfolding emit_value
  emit_value-LineRead r laws id meta text e =
      let (out, emitted, whole) = bind-ok _ _ _ e in
      let (d, back, read) =
        data-Agree utf16_encode path meta.name r laws id meta.type out emitted in
      record {
        line = emit_name meta.name ++ out;
        type = d.0;
        bytes = d.1;
        ended = sym (ok-inj _ _ whole);
        solid = line-IsSolid meta.name out read.0;
        plain = line-IsPlain meta.name out;
        back = back;
        read = name-read meta.name out d read;
      }
