-- ===== src/Regtext/Parser.antt =====
-- internal/regtext: ParseReg (parser.go) and the decoding of its input (lexer.go).
pub mod Accepts
pub mod Returns
pub mod Recreated
pub mod Once
use hivekit.Common.{
  ℕ, zero, suc, ◌+◌, ◌-◌, ◌/◌, Bool, true, false, ◌&&◌, ◌||◌, not, List, [], ◌∷◌, ◌++◌, Option,
  none, some, length, take, drop, Outcome, ok, err, panic, ◌>>=◌, leb, ltb, ◌==◌, if◌then◌else◌,
}
use hivekit.Common.Bytes.{Bytes, peek}
use hivekit.Common.Text.{backslash, codes, has_prefix}
use hivekit.Format.Consts.{bytes_equal}
use hivekit.Regmerge.Ordering.{EditOp, create_key, delete_key}
use hivekit.Regtext.Hex.{
  TextError, missing_header, malformed_section, value_without_section, unsupported_encoding,
}
use hivekit.Regtext.Values.{parse_value_line}

abbrev pub reg_file_header : Bytes
reg_file_header = codes "Windows Registry Editor Version 5.00"

-- The variables of ParseReg; seen_keys is the list of the map's keys.
pub record ParseState : Type 0 where
  pub seen_header : Bool
  pub ops : List EditOp
  pub seen_keys : List Bytes
  pub current : Bytes
  pub pending_line : Bytes

abbrev pub start : ParseState
start = record { seen_header = false; ops = []; seen_keys = []; current = []; pending_line = [] }

unfoldable pub is_seen : Bytes → List Bytes → Bool
unfolding bytes_equal
is_seen key [] = false
is_seen key (k ∷ keys) = bytes_equal key k || is_seen key keys

-- The last byte, and what stands in front of it.
unfoldable pub ends_with : ℕ → Bytes → Bool
ends_with c [] = false
ends_with c (x ∷ []) = x == c
ends_with c (x ∷ y ∷ s) = ends_with c (y ∷ s)

unfoldable pub but_last : Bytes → Bytes
but_last [] = []
but_last (x ∷ []) = []
but_last (x ∷ y ∷ s) = x ∷ but_last (y ∷ s)

-- bytes.TrimRight(line, "\r")
unfoldable pub trim_right_cr : Bytes → Bytes
trim_right_cr [] = []
trim_right_cr (x ∷ s) = elim (trim_right_cr s) [
  | [] ↦ (if x == b'\r' then [] else x ∷ [])
  | y ∷ rest ↦ x ∷ y ∷ rest
]

-- bytes.TrimLeft(line, " \t")
unfoldable pub trim_left_blanks : Bytes → Bytes
trim_left_blanks [] = []
trim_left_blanks (x ∷ s) =
    let rest = trim_left_blanks s in if x == b' ' || x == b'\t' then rest else x ∷ s

abbrev pub Step : Type 0
Step = Option (Outcome TextError ParseState)

-- The turns behind a turn, unless it returns from ParseReg.
abbrev pub go_on : Step → (ParseState → Step) → Step
go_on none next = none
go_on (some panic) next = some panic
go_on (some (err problem)) next = some (err problem)
go_on (some (ok st)) next = next st

module _ (utf16_encode : Bytes → List ℕ) (trim_space : Bytes → Bytes)
    (allow_missing_header : Bool) where
  -- A line that begins with a bracket.
  unfoldable pub parse_section : Bytes → ParseState → Outcome TextError ParseState
  unfolding ends_with but_last has_prefix is_seen
  parse_section trim st =
      let section = but_last (drop 1 trim) in
      if not (ends_with b']' trim)
      then err malformed_section
      else if has_prefix section (codes "-")
      then ok (record st {
        ops = st.ops ++ delete_key (trim_space (drop 1 section)) true ∷ [];
        current = [];
      })
      else if is_seen section st.seen_keys
      then ok (record st { current = section })
      else ok (record st {
        ops = st.ops ++ create_key section ∷ [];
        seen_keys = section ∷ st.seen_keys;
        current = section;
      })

  -- A line behind the header.
  unfoldable pub parse_body : Bytes → ParseState → Step
  unfolding parse_section parse_value_line has_prefix
  parse_body trim st =
      if has_prefix trim (codes "[")
      then some (parse_section trim st)
      else if bytes_equal st.current []
      then some (err value_without_section)
      else elim (parse_value_line utf16_encode trim_space st.current trim) [
        | none ↦ none
        | some result ↦ some (do op ← result; ok (record st { ops = st.ops ++ op ∷ [] }))
      ]

  -- A line that is trimmed.
  unfoldable pub parse_text : Bytes → ParseState → Step
  unfolding parse_body has_prefix bytes_equal
  parse_text trim st =
      if bytes_equal trim [] || has_prefix trim (codes ";")
      then some (ok st)
      else if st.seen_header
      then parse_body trim st
      else if bytes_equal trim reg_file_header
      then some (ok (record st { seen_header = true }))
      else if not allow_missing_header
      then some (err missing_header)
      else parse_body trim (record st { seen_header = true })

  -- The body of the loop over the lines.
  unfoldable pub parse_line : Bytes → ParseState → Step
  unfolding parse_text trim_right_cr trim_left_blanks ends_with but_last
  parse_line raw st =
      let line = trim_right_cr raw in
      if ends_with backslash line
      then some (ok (record st { pending_line = st.pending_line ++ but_last line }))
      else if ltb 0 (length st.pending_line)
      then parse_text (trim_space (st.pending_line ++ trim_left_blanks line))
          (record st { pending_line = [] })
      else parse_text (trim_space line) st

  -- The loop.
  unfoldable pub parse_lines : List Bytes → ParseState → Step
  unfolding parse_line
  parse_lines [] st = some (ok st)
  parse_lines (line ∷ lines) st = go_on (parse_line line st) λ st'. parse_lines lines st'

  -- ParseReg behind the decoding: `scanned` is what the bufio.Scanner gives, the lines and its error.
  unfoldable pub parse_scanned :
      List Bytes × Option TextError → Option (Outcome TextError (List EditOp))
  unfolding parse_lines
  parse_scanned (lines, problem) = elim (parse_lines lines start) [
    | none ↦ none
    | some result ↦
        some (do st ← result; elim problem [ none ↦ ok st.ops | some scan_err ↦ err scan_err ])
  ]

-- decodeInputToBytes; `utf16_decode` is utf16.Decode, as bytes, and `upper` is strings.ToUpper.
unfoldable pub words_of : ℕ → Bytes → List ℕ
unfolding peek
words_of zero s = []
words_of (suc n) s = peek 2 s 0 ∷ words_of n (drop 2 s)

unfoldable pub utf16le_to_bytes : (List ℕ → Bytes) → Bytes → Bytes
unfolding words_of
utf16le_to_bytes utf16_decode s =
    if length s / 2 == 0 then [] else utf16_decode (words_of (length s / 2) s)

unfoldable pub decode_input_to_bytes :
    (List ℕ → Bytes) → (Bytes → Bytes) → Bytes → Bytes → Outcome TextError Bytes
unfolding utf16le_to_bytes has_prefix bytes_equal
decode_input_to_bytes utf16_decode upper s enc =
    if has_prefix s (0xFF ∷ 0xFE ∷ [])
    then ok (utf16le_to_bytes utf16_decode (drop 2 s))
    else if has_prefix s (0xEF ∷ 0xBB ∷ 0xBF ∷ [])
    then ok (drop 3 s)
    else if bytes_equal (upper enc) [] || bytes_equal (upper enc) (codes "UTF-8")
    then ok s
    else if bytes_equal (upper enc) (codes "UTF-16LE")
    then ok (utf16le_to_bytes utf16_decode s)
    else err unsupported_encoding

-- ParseReg, on the bytes of a file and the name of its encoding; `scan` is what the bufio.Scanner
-- makes of the text: its lines, and the error that ended it.
unfoldable pub parse_reg :
    (List ℕ → Bytes)
    → (Bytes → Bytes)
    → (Bytes → List Bytes × Option TextError)
    → (Bytes → List ℕ)
    → (Bytes → Bytes)
    → Bool
    → Bytes
    → Bytes
    → Option (Outcome TextError (List EditOp))
unfolding decode_input_to_bytes parse_scanned
parse_reg utf16_decode upper scan utf16_encode trim_space allow_missing_header s enc =
    elim (decode_input_to_bytes utf16_decode upper s enc) [
      | panic ↦ some panic
      | err problem ↦ some (err problem)
      | ok text ↦ parse_scanned utf16_encode trim_space allow_missing_header (scan text)
    ]
