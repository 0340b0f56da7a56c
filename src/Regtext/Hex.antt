-- ===== src/Regtext/Hex.antt =====
-- internal/regtext: data in hexadecimal (emit.go formatHex; utils.go hexCharToNibble,
-- isHexSkipChar, parseHexBytesFromBytes).
pub mod RoundTrip
use hivekit.Common.{
  ℕ, zero, suc, ◌+◌, ◌-◌, ◌*◌, ◌/◌, ◌%◌, Bool, true, false, ◌&&◌, ◌||◌, [], ◌∷◌, ◌++◌, Option, none,
  some, length, drop, Outcome, ok, err, ◌>>=◌, ltb, leb, ◌==◌, if◌then◌else◌,
}
use hivekit.Common.Bytes.{Bytes}
use hivekit.Common.Text.{backslash}
use hivekit.Regtext.Text.{index_byte}

-- The errors of the package, and of the calls it makes.
pub data TextError : Type 0 where
  missing_colon invalid_hex_digit malformed_line unterminated_name missing_assignment : TextError
  unterminated_string invalid_dword invalid_syntax unsupported_value : TextError
  missing_header malformed_section value_without_section unsupported_encoding : TextError
  line_too_long : TextError
  reader_error : ℕ → TextError

-- A digit of fmt's %x.
unfoldable pub hex_digit : ℕ → ℕ
hex_digit n = if ltb n 10 then b'0' + n else b'a' + (n - 10)

-- HexByteFormat, "%02x"
abbrev pub hex_byte : ℕ → Bytes
unfolding hex_digit
hex_byte b = hex_digit (b / 16) ∷ hex_digit (b % 16) ∷ []

-- strings.Join with HexByteSeparator, behind the first part.
unfoldable pub joined : Bytes → Bytes
unfolding hex_byte
joined [] = []
joined (b ∷ bytes) = b',' ∷ hex_byte b ++ joined bytes

unfoldable pub format_hex : Bytes → Bytes
unfolding hex_byte joined
format_hex [] = b'0' ∷ b'0' ∷ []
format_hex (b ∷ bytes) = hex_byte b ++ joined bytes

unfoldable pub hex_char_to_nibble : ℕ → ℕ
hex_char_to_nibble c =
    if leb b'0' c && leb c b'9'
    then c - b'0'
    else if leb b'a' c && leb c b'f'
    then c - b'a' + 10
    else if leb b'A' c && leb c b'F'
    then c - b'A' + 10
    else 0xFF

unfoldable pub is_hex_skip_char : ℕ → Bool
is_hex_skip_char c =
    c == b' ' || c == b'\t' || c == b'\n' || c == b'\r' || c == b',' || c == backslash

-- The inner loops: over the characters to skip, and over blanks between two digits.
unfoldable pub skip_chars : Bytes → Bytes
unfolding is_hex_skip_char
skip_chars [] = []
skip_chars (c ∷ s) = let rest = skip_chars s in if is_hex_skip_char c then rest else c ∷ s

unfoldable pub skip_blanks : Bytes → Bytes
skip_blanks [] = []
skip_blanks (c ∷ s) = let rest = skip_blanks s in if c == b' ' || c == b'\t' then rest else c ∷ s

-- The byte that a first digit and what follows it give, and what is left.
unfoldable pub second_digit : ℕ → Bytes → ℕ × Bytes
unfolding is_hex_skip_char hex_char_to_nibble
second_digit hi [] = (hi, [])
second_digit hi (lo ∷ s) =
    if is_hex_skip_char lo
    then (hi, lo ∷ s)
    else if hex_char_to_nibble lo == 0xFF
    then (hi, lo ∷ s)
    else (hi * 16 + hex_char_to_nibble lo, s)

abbrev pub prepend : ℕ → Option (Outcome TextError Bytes) → Option (Outcome TextError Bytes)
prepend b none = none
prepend b (some rest) = some (do bytes ← rest; ok (b ∷ bytes))

-- One turn of the outer loop, behind the characters that it skips; `next` is the turns behind it.
unfoldable pub hex_turn :
    (Bytes → Option (Outcome TextError Bytes)) → Bytes → Option (Outcome TextError Bytes)
unfolding hex_char_to_nibble second_digit skip_blanks
hex_turn next [] = some (ok [])
hex_turn next (c ∷ s) =
    let hi = hex_char_to_nibble c in
    let (b, rest) = second_digit hi (skip_blanks s) in
    let later = prepend b (next rest) in if hi == 0xFF then some (err invalid_hex_digit) else later

-- The outer loop, with at most `fuel` turns.
unfoldable pub parse_hex_from : ℕ → Bytes → Option (Outcome TextError Bytes)
unfolding hex_turn skip_chars
parse_hex_from zero s = none
parse_hex_from (suc fuel) s = hex_turn (λ rest. parse_hex_from fuel rest) (skip_chars s)

-- parseHexBytesFromBytes
unfoldable pub parse_hex_bytes : Bytes → Option (Outcome TextError Bytes)
unfolding parse_hex_from index_byte
parse_hex_bytes hex_bytes = elim (index_byte b':' hex_bytes) [
  | none ↦ some (err missing_colon)
  | some colon_pos ↦
      let hex_digits = drop (colon_pos + 1) hex_bytes in
      parse_hex_from (length hex_digits + 1) hex_digits
]
