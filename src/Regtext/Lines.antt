-- ===== src/Regtext/Lines.antt =====
-- The lines of an exported text (internal/regtext/emit.go), as a bufio.Scanner splits it.
use mathlib.Core.List.{append_assoc}
use hivekit.Common.{
  ℕ, zero, suc, ◌+◌, ◌/◌, ◌%◌, ◌<◌, ◌≡◌, refl, sym, ap, ◌∙◌, arith, List, [], ◌∷◌, ◌++◌, Option,
  none, length, All, Outcome, ok, err, panic, ◌>>=◌, ◌==◌, ◌||◌, false, ok-inj, bind-ok,
  if◌then◌else◌, if-both,
}
use hivekit.Common.Bytes.{Bytes}
use hivekit.Common.Text.{codes}
use hivekit.Regtext.Text.{quote, replace_byte, escape_string}
use hivekit.Regtext.Hex.{TextError, hex_digit, joined, format_hex}
use hivekit.Regtext.Values.{
  reg_sz, reg_expand_sz, reg_multi_sz, reg_dword, ValueMeta, Reader, crlf, hex_fixed,
  encode_multi_string, emit_data, emit_name, emit_value,
}
use hivekit.Regtext.Values.Marks.{IsMark, IsSolid, last_byte}
use hivekit.Regtext.Parser.{ends_with}

-- Lines, each with its CRLF.
abbrev pub unlines : List Bytes → Bytes
unlines [] = []
unlines (line ∷ lines) = line ++ crlf ++ unlines lines

-- How many line feeds there are.
unfoldable pub feeds : Bytes → ℕ
feeds [] = 0
feeds (x ∷ s) = (if x == b'\n' then 1 else 0) + feeds s

-- What can stand in one line, with a CRLF behind it.
abbrev pub IsLine : Bytes → Type 0
IsLine line = (feeds line ≡ 0) × (ends_with b'\r' line ≡ false)

-- ScannerMaxLineSize
abbrev pub scanner_max_line_size : ℕ
scanner_max_line_size = 1048576

-- What a bufio.Scanner promises of a text that is shorter than its longest line: it gives the lines
-- without their ends, and no error.
pub record IsScanner (scan : Bytes → List Bytes × Option TextError) : Type 0 where
  pub scans :
      (lines : List Bytes)
      → All IsLine lines
      → length (unlines lines) < scanner_max_line_size
      → scan (unlines lines) ≡ (lines, none)

-- A reader whose names and strings have no line feeds.
pub record IsOneLine {V : Type 0} (r : Reader V) : Type 0 where
  pub one_string : (id : V) (str : Bytes) → r.value_string id ≡ ok str → feeds str ≡ 0

pub feeds-append : (a b : Bytes) → feeds (a ++ b) ≡ feeds a + feeds b
unfolding feeds
feeds-append [] b = omega arith
feeds-append (x ∷ a) b = omega (arith, feeds-append a b)

feeds-escape_string : (s : Bytes) → feeds (escape_string s) ≡ feeds s
unfolding feeds escape_string replace_byte
feeds-escape_string [] = refl
feeds-escape_string (x ∷ s) = ground (arith, feeds-escape_string s)

feeds-joined : (bytes : Bytes) → feeds (joined bytes) ≡ 0
unfolding feeds joined hex_digit
feeds-joined [] = refl
feeds-joined (b ∷ bytes) = ground (arith, feeds-joined bytes)

feeds-format_hex : (bytes : Bytes) → feeds (format_hex bytes) ≡ 0
unfolding feeds format_hex hex_digit
feeds-format_hex [] = refl
feeds-format_hex (b ∷ bytes) = ground (arith, feeds-joined bytes)

feeds-hex_fixed : (k n : ℕ) → feeds (hex_fixed k n) ≡ 0
unfolding feeds hex_fixed hex_digit
feeds-hex_fixed zero n = refl
feeds-hex_fixed (suc k) n = ground (
  arith,
  feeds-append (hex_fixed k (n / 16)) (hex_digit (n % 16) ∷ []),
  feeds-hex_fixed k (n / 16),
)

-- A text, if there is one, has no line feed.
abbrev Unfed : Outcome TextError Bytes → Type 0
Unfed printed = (text : Bytes) → printed ≡ ok text → feeds text ≡ 0

Unfed-call :
    {A : Type 0} (call : Outcome TextError A) (print : A → Bytes)
    → ((a : A) → call ≡ ok a → feeds (print a) ≡ 0)
    → Unfed (call >>= λ a. ok (print a))
Unfed-call panic print h text e = cc
Unfed-call (err problem) print h text e = cc
Unfed-call (ok a) print h text e = ap feeds (sym (ok-inj (print a) text e)) ∙ h a refl

feeds-quoted : (s : Bytes) → feeds s ≡ 0 → feeds (quote ∷ escape_string s ++ quote ∷ []) ≡ 0
feeds-quoted s h =
    let f = feeds-append (escape_string s) (quote ∷ []) in
    let g = feeds-escape_string s in unfold feeds in omega (arith, f, g)

module _ {V : Type 0} (utf16_encode : Bytes → List ℕ) (r : Reader V) (one : IsOneLine r) where
  emit_data-Unfed : (id : V) (type : ℕ) → Unfed (emit_data utf16_encode r id type)
  unfolding emit_data feeds
  emit_data-Unfed id type =
      if-both Unfed (type == reg_sz || type == reg_expand_sz)
        (λ text.
          Unfed-call (r.value_string id) _ λ str e. feeds-quoted str (one.one_string id str e))
        λ a.
          if-both Unfed (type == reg_multi_sz)
            (λ multi.
              Unfed-call (r.value_strings id)
                (λ vals. codes "hex(7):" ++ format_hex (encode_multi_string utf16_encode vals))
                λ vals e. omega (arith, feeds-format_hex (encode_multi_string utf16_encode vals)))
            λ b.
              if-both Unfed (type == reg_dword)
                (λ dword.
                  Unfed-call (r.value_dword id) (λ dw. codes "dword:" ++ hex_fixed 8 dw)
                    λ dw e. omega (arith, feeds-hex_fixed 8 dw))
                λ c.
                  Unfed-call (r.value_bytes id) (λ bytes. codes "hex:" ++ format_hex bytes)
                    λ bytes e. omega (arith, feeds-format_hex bytes)

  feeds-emit_name : (name : Bytes) → feeds name ≡ 0 → feeds (emit_name name) ≡ 0
  unfolding feeds escape_string
  feeds-emit_name [] h = refl
  feeds-emit_name (c ∷ name) h =
      let f = feeds-append (escape_string (c ∷ name)) (quote ∷ b'=' ∷ []) in
      let g = feeds-escape_string (c ∷ name) in omega (arith, f, g, h)

  -- The line that emitValue writes has no line feed but its end.
  pub feeds-emit_value :
      (id : V) (meta : ValueMeta) (line : Bytes)
      → feeds meta.name ≡ 0
      → emit_value utf16_encode r id meta ≡ ok (line ++ crlf)
      → feeds line ≡ 0
  unfolding emit_value feeds
  feeds-emit_value id meta line h e =
      let (out, emitted, whole) = bind-ok _ _ _ e in
      let same = ap feeds (ok-inj _ _ whole) in
      let none_in = emit_data-Unfed id meta.type out emitted in
      let name = feeds-emit_name meta.name h in
      omega (
        arith,
        same,
        none_in,
        name,
        feeds-append (emit_name meta.name) out,
        feeds-append (emit_name meta.name ++ out) crlf,
        feeds-append line crlf,
      )

cr-mark : (x : ℕ) (s : Bytes) → IsMark (last_byte x s) → ends_with b'\r' (x ∷ s) ≡ false
unfolding ends_with last_byte
cr-mark x [] h = ground arith
cr-mark x (y ∷ s) h = cr-mark y s h

-- A line that does not end with white space.
pub solid-IsLine : (s : Bytes) → feeds s ≡ 0 → IsSolid s → IsLine s
unfolding IsSolid
solid-IsLine [] f h = (f, unfold ends_with in refl)
solid-IsLine (x ∷ s) f h = (f, cr-mark x s h.1)

pub All-append {ℓ κ} :
    {A : Type ℓ} (P : A → Type κ) (xs ys : List A) → All P xs → All P ys → All P (xs ++ ys)
All-append P [] ys h k = k
All-append P (x ∷ xs) ys h k = (h.0, All-append P xs ys h.1 k)

pub unlines-append : (a b : List Bytes) → unlines (a ++ b) ≡ unlines a ++ unlines b
unlines-append [] b = refl
unlines-append (line ∷ a) b =
    ap (λ t. line ++ crlf ++ t) (unlines-append a b)
    ∙ sym (append_assoc (line ++ crlf) (unlines a) (unlines b))
