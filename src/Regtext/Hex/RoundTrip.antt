-- ===== src/Regtext/Hex/RoundTrip.antt =====
-- Data in hexadecimal: the parser always returns, and reads back what formatHex printed.
use hivekit.Common.{
  ℕ, zero, suc, ◌+◌, ◌*◌, ◌/◌, ◌%◌, ◌≤◌, ◌<◌, ◌≡◌, ◌≢◌, refl, ap, ◌∙◌, arith, false, [], ◌∷◌, ◌++◌,
  Option, none, some, length, drop, Outcome, ok, panic, ◌==◌, All,
}
use hivekit.Common.Bytes.{Bytes, IsByte}
use hivekit.Regtext.Text.{index_byte}
use hivekit.Regtext.Hex.{
  TextError, hex_digit, hex_byte, joined, format_hex, hex_char_to_nibble, is_hex_skip_char,
  skip_chars, skip_blanks, second_digit, prepend, hex_turn, parse_hex_from, parse_hex_bytes,
}

skip_chars-le : (s : Bytes) → length (skip_chars s) ≤ length s
unfolding skip_chars
skip_chars-le [] = omega arith
skip_chars-le (c ∷ s) = ground (arith, skip_chars-le s)

skip_blanks-le : (s : Bytes) → length (skip_blanks s) ≤ length s
unfolding skip_blanks
skip_blanks-le [] = omega arith
skip_blanks-le (c ∷ s) = ground (arith, skip_blanks-le s)

second_digit-le : (hi : ℕ) (s : Bytes) → length (second_digit hi s).1 ≤ length s
unfolding second_digit
second_digit-le hi [] = omega arith
second_digit-le hi (lo ∷ s) = ground arith

-- An answer: neither is the fuel out, nor has the code panicked.
abbrev pub Answers : {A : Type 0} → Option (Outcome TextError A) → Type 0
Answers o = (o ≢ none) × (o ≢ some panic)

turn-Answers :
    (next : Bytes → Option (Outcome TextError Bytes)) (s : Bytes)
    → ((rest : Bytes) → length rest < length s → Answers (next rest))
    → Answers (hex_turn next s)
unfolding hex_turn
turn-Answers next [] h = (ground arith, ground arith)
turn-Answers next (c ∷ s) h =
    let (b, rest) = second_digit (hex_char_to_nibble c) (skip_blanks s) in
    let shorter = second_digit-le (hex_char_to_nibble c) (skip_blanks s) in
    let blanks = skip_blanks-le s in
    let later =
      h (second_digit (hex_char_to_nibble c) (skip_blanks s)).1 (omega (arith, shorter, blanks)) in
    (ground (arith, later.0), ground (arith, later.0, later.1))

parse_hex_from-Answers : (fuel : ℕ) (s : Bytes) → length s < fuel → Answers (parse_hex_from fuel s)
unfolding parse_hex_from
parse_hex_from-Answers zero s h = absurd (omega arith)
parse_hex_from-Answers (suc fuel) s h =
    turn-Answers (λ rest. parse_hex_from fuel rest) (skip_chars s)
      λ rest shorter. parse_hex_from-Answers fuel rest (omega (arith, skip_chars-le s))

pub parse_hex_bytes-Answers : (s : Bytes) → Answers (parse_hex_bytes s)
unfolding parse_hex_bytes
parse_hex_bytes-Answers s = grind (arith, parse_hex_from-Answers)

-- What a digit of the printer is to the parser.
pub digit-read :
    (n : ℕ)
    → n < 16
    → (hex_char_to_nibble (hex_digit n) ≡ n)
      × (is_hex_skip_char (hex_digit n) ≡ false)
      × ((hex_digit n == b' ') ≡ false)
      × ((hex_digit n == b'\t') ≡ false)
unfolding hex_char_to_nibble hex_digit is_hex_skip_char
digit-read n h = (ground arith, ground arith, ground arith, ground arith)

skip_chars-hex_byte : (b : ℕ) (s : Bytes) → b < 256 → skip_chars (hex_byte b ++ s) ≡ hex_byte b ++ s
unfolding skip_chars hex_byte
skip_chars-hex_byte b s h =
    let (_, e, _, _) = digit-read (b / 16) (omega arith) in ground (arith, e)

skip_chars-comma : (s : Bytes) → skip_chars (b',' ∷ s) ≡ skip_chars s
unfolding skip_chars is_hex_skip_char
skip_chars-comma s = refl

hex_turn-hex_byte :
    (next : Bytes → Option (Outcome TextError Bytes)) (b : ℕ) (s : Bytes)
    → b < 256
    → hex_turn next (hex_byte b ++ s) ≡ prepend b (next s)
unfolding hex_turn hex_byte second_digit skip_blanks
hex_turn-hex_byte next b s h =
    let (a1, a2, a3, a4) = digit-read (b / 16) (omega arith) in
    let (b1, b2, b3, b4) = digit-read (b % 16) (omega arith) in ground (arith, a1, b1, b2, b3, b4)

read_joined :
    (bytes : Bytes) (fuel : ℕ)
    → length bytes < fuel
    → All IsByte bytes
    → parse_hex_from fuel (joined bytes) ≡ some (ok bytes)
unfolding parse_hex_from joined hex_turn
read_joined bytes zero h small = absurd (omega arith)
read_joined [] (suc fuel) h small = refl
read_joined (b ∷ bytes) (suc fuel) h small =
    rw
      (
        skip_chars-comma (hex_byte b ++ joined bytes),
        skip_chars-hex_byte b (joined bytes) small.0,
        hex_turn-hex_byte (λ rest. parse_hex_from fuel rest) b (joined bytes) small.0,
        read_joined bytes fuel (omega arith) small.1,
      )
      refl

index_byte-append :
    (x : ℕ) (p s : Bytes) → index_byte x p ≡ none → index_byte x (p ++ x ∷ s) ≡ some (length p)
unfolding index_byte
index_byte-append x [] s h = ground arith
index_byte-append x (y ∷ p) s h = ground (arith, index_byte-append x p s)

pub drop-behind : (p : Bytes) (x : ℕ) (s : Bytes) → drop (length p + 1) (p ++ x ∷ s) ≡ s
drop-behind [] x s = refl
drop-behind (y ∷ p) x s =
    let e : suc (length p) + 1 ≡ suc (length p + 1) = omega arith in
    ap (λ n. drop n (y ∷ (p ++ x ∷ s))) e ∙ drop-behind p x s

-- What the parser makes of the print of some data: the print of no data is that of one zero byte.
abbrev pub reread : Bytes → Bytes
reread [] = 0 ∷ []
reread (b ∷ bytes) = b ∷ bytes

read_format_hex :
    (bytes : Bytes) (fuel : ℕ)
    → length bytes + 1 < fuel
    → All IsByte bytes
    → parse_hex_from fuel (format_hex bytes) ≡ some (ok (reread bytes))
unfolding parse_hex_from format_hex
read_format_hex bytes zero h small = absurd (omega arith)
read_format_hex [] (suc fuel) h small = ground (arith, read_joined [] fuel)
read_format_hex (b ∷ bytes) (suc fuel) h small =
    rw
      (
        skip_chars-hex_byte b (joined bytes) small.0,
        hex_turn-hex_byte (λ rest. parse_hex_from fuel rest) b (joined bytes) small.0,
        read_joined bytes fuel (omega arith) small.1,
      )
      refl

length-joined : (bytes : Bytes) → length (joined bytes) ≡ 3 * length bytes
unfolding joined
length-joined [] = refl
length-joined (b ∷ bytes) = omega (arith, length-joined bytes)

length-format_hex : (bytes : Bytes) → length bytes < length (format_hex bytes)
unfolding format_hex
length-format_hex [] = omega arith
length-format_hex (b ∷ bytes) = omega (arith, length-joined bytes)

pub parse_hex_bytes-format_hex :
    (p bytes : Bytes)
    → index_byte b':' p ≡ none
    → All IsByte bytes
    → parse_hex_bytes (p ++ b':' ∷ format_hex bytes) ≡ some (ok (reread bytes))
unfolding parse_hex_bytes
parse_hex_bytes-format_hex p bytes h small =
    let e = index_byte-append b':' p (format_hex bytes) h in
    let d = drop-behind p b':' (format_hex bytes) in
    let r =
      read_format_hex bytes (length (format_hex bytes) + 1) (omega (arith, length-format_hex bytes))
        small in
    ground (arith, e, d, r)
