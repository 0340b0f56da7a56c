-- ===== src/Regtext/Values.antt =====
-- internal/regtext: the line of one value, printed (emit.go emitValue) and read (parser.go
-- parseValueLineBytes, parseValueBytes, parseHexPayloadBytes).
pub mod Marks
pub mod Line
pub mod RoundTrip
pub mod Names
pub mod Types
use hivekit.Common.{
  ℕ, zero, suc, ◌+◌, ◌-◌, ◌*◌, ◌/◌, ◌%◌, Bool, true, false, ◌&&◌, ◌||◌, not, List, [], ◌∷◌, ◌++◌,
  Option, none, some, length, take, drop, Outcome, ok, err, ◌>>=◌, ltb, ◌==◌, if◌then◌else◌,
}
use hivekit.Common.Bytes.{Bytes, slice, le_bytes}
use hivekit.Common.Text.{codes, has_prefix}
use hivekit.Format.Consts.{bytes_equal}
use hivekit.Regmerge.Ordering.{EditOp, set_value, delete_value}
use hivekit.Regtext.Text.{quote, index_byte, escape_string, unescape_reg_string, find_closing_quote}
use hivekit.Regtext.Hex.{
  TextError, malformed_line, unterminated_name, missing_assignment, unterminated_string,
  invalid_dword, invalid_syntax, unsupported_value, hex_digit, hex_char_to_nibble, format_hex,
  parse_hex_bytes,
}

-- types.RegType (pkg/types/api.go) is a uint32.
abbrev pub reg_none : ℕ
reg_none = 0

abbrev pub reg_sz : ℕ
reg_sz = 1

abbrev pub reg_expand_sz : ℕ
reg_expand_sz = 2

abbrev pub reg_binary : ℕ
reg_binary = 3

abbrev pub reg_dword : ℕ
reg_dword = 4

abbrev pub reg_dword_be : ℕ
reg_dword_be = 5

abbrev pub reg_link : ℕ
reg_link = 6

abbrev pub reg_multi_sz : ℕ
reg_multi_sz = 7

abbrev pub reg_qword : ℕ
reg_qword = 11

pub record ValueMeta : Type 0 where
  pub name : Bytes
  pub type : ℕ

-- types.Reader, as far as emitValue calls it, on value ids `V`.
pub record Reader (V : Type 0) : Type 0 where
  pub value_bytes : V → Outcome TextError Bytes
  pub value_string : V → Outcome TextError Bytes
  pub value_strings : V → Outcome TextError (List Bytes)
  pub value_dword : V → Outcome TextError ℕ

abbrev pub crlf : Bytes
crlf = b'\r' ∷ b'\n' ∷ []

-- The `k` lowest hexadecimal digits of a number: %08x of a uint32 for 8.
unfoldable pub hex_fixed : ℕ → ℕ → Bytes
unfolding hex_digit
hex_fixed zero n = []
hex_fixed (suc k) n = hex_fixed k (n / 16) ++ hex_digit (n % 16) ∷ []

-- The digits of strconv.ParseUint in base 16, behind a number `n`.
unfoldable pub parse_digits : ℕ → Bytes → Option ℕ
unfolding hex_char_to_nibble
parse_digits n [] = some n
parse_digits n (c ∷ s) =
    let rest = parse_digits (n * 16 + hex_char_to_nibble c) s in
    if hex_char_to_nibble c == 0xFF then none else rest

-- binary.LittleEndian.PutUint16 of each word.
unfoldable pub put_words : List ℕ → Bytes
put_words [] = []
put_words (w ∷ words) = le_bytes 2 w ++ put_words words

-- parseHexValueTypeBytes
unfoldable pub parse_hex_value_type : Bytes → Option Bytes
unfolding index_byte slice
parse_hex_value_type payload = elim (index_byte b'(' payload) [
  | none ↦ none
  | some open_paren ↦ elim (index_byte b')' payload) [
    | none ↦ none
    | some close_paren ↦
        if ltb open_paren close_paren
        then some (slice (close_paren - (open_paren + 1)) (open_paren + 1) payload)
        else none
  ]
]

abbrev pub hex_type : Bytes → ℕ
unfolding bytes_equal
hex_type type_num =
    if bytes_equal type_num (codes "0")
    then reg_none
    else if bytes_equal type_num (codes "1")
    then reg_sz
    else if bytes_equal type_num (codes "2")
    then reg_expand_sz
    else if bytes_equal type_num (codes "3")
    then reg_binary
    else if bytes_equal type_num (codes "4")
    then reg_dword
    else if bytes_equal type_num (codes "5")
    then reg_dword_be
    else if bytes_equal type_num (codes "6")
    then reg_link
    else if bytes_equal type_num (codes "7")
    then reg_multi_sz
    else if bytes_equal type_num (codes "11")
    then reg_qword
    else reg_binary

abbrev pub payload_type : Option Bytes → ℕ
payload_type none = reg_binary
payload_type (some type_num) = hex_type type_num

abbrev pub Parsed : Type 0
Parsed = Option (Outcome TextError EditOp)

-- The last branch of parseValueBytes, with parseHexPayloadBytes.
unfoldable pub parse_hex_value : Bytes → Bytes → Bytes → Parsed
unfolding parse_hex_value_type parse_hex_bytes
parse_hex_value path name payload = elim (parse_hex_bytes payload) [
  | none ↦ none
  | some result ↦ some (do
    bytes ← result
    ok (set_value path name (payload_type (parse_hex_value_type payload)) bytes))
]

unfoldable pub parse_dword_value : Bytes → Bytes → Bytes → Outcome TextError EditOp
unfolding parse_digits
parse_dword_value path name hex_part =
    if not (length hex_part == 8) then err invalid_dword else elim (parse_digits 0 hex_part) [
      | none ↦ err invalid_syntax
      | some n ↦ ok (set_value path name reg_dword (le_bytes 4 n))
    ]

abbrev pub emit_name : Bytes → Bytes
unfolding escape_string
emit_name [] = codes "@="
emit_name (c ∷ name) = quote ∷ escape_string (c ∷ name) ++ codes "\"="

-- `utf16_encode` is utf16.Encode of the runes of a string; `trim_space` is bytes.TrimSpace.
module _ (utf16_encode : Bytes → List ℕ) where
  unfoldable pub encode_utf16le_zero_terminated : Bytes → Bytes
  unfolding put_words
  encode_utf16le_zero_terminated s = put_words (utf16_encode s) ++ 0 ∷ 0 ∷ []

  -- Behind the strings stands DoubleNullTerminator.
  unfoldable pub encode_multi_string : List Bytes → Bytes
  unfolding encode_utf16le_zero_terminated
  encode_multi_string [] = 0 ∷ 0 ∷ []
  encode_multi_string (v ∷ values) = encode_utf16le_zero_terminated v ++ encode_multi_string values

  -- What emitValue writes behind the name.
  unfoldable pub emit_data : {V : Type 0} → Reader V → V → ℕ → Outcome TextError Bytes
  unfolding escape_string format_hex encode_multi_string hex_fixed
  emit_data r id type =
      if type == reg_sz || type == reg_expand_sz
      then (do str ← r.value_string id; ok (quote ∷ escape_string str ++ quote ∷ []))
      else if type == reg_multi_sz
      then (do
        vals ← r.value_strings id
        ok (codes "hex(7):" ++ format_hex (encode_multi_string vals)))
      else if type == reg_dword
      then (do dw ← r.value_dword id; ok (codes "dword:" ++ hex_fixed 8 dw))
      else (do bytes ← r.value_bytes id; ok (codes "hex:" ++ format_hex bytes))

  -- emitValue. On an error it has written a part of the line, which ExportReg drops.
  unfoldable pub emit_value : {V : Type 0} → Reader V → V → ValueMeta → Outcome TextError Bytes
  unfolding emit_data
  emit_value r id meta = do
    text ← emit_data r id meta.type
    ok (emit_name meta.name ++ text ++ crlf)

  unfoldable pub parse_string_value : Bytes → Bytes → Bytes → Outcome TextError EditOp
  unfolding find_closing_quote unescape_reg_string encode_utf16le_zero_terminated slice
  parse_string_value path name payload = elim (find_closing_quote payload) [
    | none ↦ err unterminated_string
    | some end ↦
        let value = unescape_reg_string (slice (end - 1) 1 payload) in
        ok (set_value path name reg_sz (encode_utf16le_zero_terminated value))
  ]

  -- parseValueBytes, behind the trim.
  unfoldable pub parse_trimmed : Bytes → Bytes → Bytes → Parsed
  unfolding parse_hex_value parse_string_value parse_dword_value bytes_equal has_prefix
  parse_trimmed path name payload =
      if bytes_equal payload (codes "-")
      then some (ok (delete_value path name))
      else if has_prefix payload (codes "\"")
      then some (parse_string_value path name payload)
      else if has_prefix payload (codes "dword:")
      then some (parse_dword_value path name (drop 6 payload))
      else if has_prefix payload (codes "hex")
      then parse_hex_value path name payload
      else some (err unsupported_value)

  module _ (trim_space : Bytes → Bytes) where
    unfoldable pub parse_value : Bytes → Bytes → Bytes → Parsed
    unfolding parse_trimmed
    parse_value path name payload = parse_trimmed path name (trim_space payload)

    -- parseValueLineBytes
    unfoldable pub parse_value_line : Bytes → Bytes → Parsed
    unfolding parse_value find_closing_quote unescape_reg_string has_prefix slice
    parse_value_line path line =
        if has_prefix line (codes "@=")
        then parse_value path [] (drop 2 line)
        else if not (has_prefix line (codes "\""))
        then some (err malformed_line)
        else elim (find_closing_quote line) [
          | none ↦ some (err unterminated_name)
          | some end ↦
              let name = unescape_reg_string (slice (end - 1) 1 line) in
              let rest = drop (end + 1) line in
              if has_prefix rest (codes "=")
              then parse_value path name (drop 1 rest)
              else some (err missing_assignment)
        ]
