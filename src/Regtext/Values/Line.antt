-- ===== src/Regtext/Values/Line.antt =====
-- A value that is printed and read again.
use hivekit.Common.{
  ℕ, zero, suc, ◌+◌, ◌*◌, ◌/◌, ◌%◌, ◌^◌, ◌<◌, ◌≡◌, refl, arith, false, List, [], ◌∷◌, ◌++◌, none,
  some, length, ok, ◌==◌, All, length-append, take-append_length,
}
use native.Mathlib.Nat.{pow-suc}
use hivekit.Common.Bytes.{Bytes, IsByte, slice, le_bytes}
use hivekit.Common.Text.{codes}
use hivekit.Format.Consts.{bytes_equal}
use hivekit.Regmerge.Ordering.{set_value}
use hivekit.Regtext.Text.{quote, index_byte, escape_string}
use hivekit.Regtext.Text.Escaped.{
  unescape_reg_string-escape_string, find_closing_quote-escape_string,
}
use hivekit.Regtext.Hex.{hex_digit, joined, hex_char_to_nibble, format_hex}
use hivekit.Regtext.Hex.RoundTrip.{reread, digit-read, parse_hex_bytes-format_hex}
use hivekit.Regtext.Values.{
  reg_sz, reg_binary, reg_dword, reg_multi_sz, hex_fixed, parse_digits, parse_hex_value_type,
  parse_hex_value, parse_dword_value, encode_utf16le_zero_terminated, parse_string_value,
}

parse_digits-append :
    (s : Bytes) (n m c : ℕ)
    → parse_digits n s ≡ some m
    → (hex_char_to_nibble c == 0xFF) ≡ false
    → parse_digits n (s ++ c ∷ []) ≡ some (m * 16 + hex_char_to_nibble c)
unfolding parse_digits
parse_digits-append [] n m c h d = ground arith
parse_digits-append (x ∷ s) n m c h d =
    ground (arith, parse_digits-append s (n * 16 + hex_char_to_nibble x) m c)

-- The digits that were printed are read as the number, if it has no more.
parse_digits-hex_fixed : (k n : ℕ) → n < 16 ^ k → parse_digits 0 (hex_fixed k n) ≡ some n
unfolding hex_fixed
parse_digits-hex_fixed zero n h = unfold parse_digits in ground arith
parse_digits-hex_fixed (suc k) n h =
    let higher = parse_digits-hex_fixed k (n / 16) (omega (arith, pow-suc 16 k)) in
    let (d, _, _, _) = digit-read (n % 16) (omega arith) in
    let all =
      parse_digits-append (hex_fixed k (n / 16)) 0 (n / 16) (hex_digit (n % 16)) higher
        (ground (arith, d)) in
    ground (arith, all, d)

length-hex_fixed : (k n : ℕ) → length (hex_fixed k n) ≡ k
unfolding hex_fixed
length-hex_fixed zero n = refl
length-hex_fixed (suc k) n = omega (
  arith,
  length-append (hex_fixed k (n / 16)) (hex_digit (n % 16) ∷ []),
  length-hex_fixed k (n / 16),
)

-- No bracket stands in data in hexadecimal.
index_byte-joined : (bytes : Bytes) → All IsByte bytes → index_byte b'(' (joined bytes) ≡ none
unfolding index_byte joined hex_digit
index_byte-joined [] h = refl
index_byte-joined (b ∷ bytes) h = ground (arith, index_byte-joined bytes h.1)

index_byte-format_hex :
    (bytes : Bytes) → All IsByte bytes → index_byte b'(' (format_hex bytes) ≡ none
unfolding index_byte format_hex hex_digit
index_byte-format_hex [] h = refl
index_byte-format_hex (b ∷ bytes) h = ground (arith, index_byte-joined bytes h.1)

pub parse_binary :
    (path name bytes : Bytes)
    → All IsByte bytes
    → parse_hex_value path name (codes "hex:" ++ format_hex bytes)
      ≡ some (ok (set_value path name reg_binary (reread bytes)))
unfolding parse_hex_value parse_hex_value_type index_byte
parse_binary path name bytes h =
    let e = parse_hex_bytes-format_hex (codes "hex") bytes refl h in
    let f = index_byte-format_hex bytes h in ground (arith, e, f)

pub parse_multi :
    (path name bytes : Bytes)
    → All IsByte bytes
    → parse_hex_value path name (codes "hex(7):" ++ format_hex bytes)
      ≡ some (ok (set_value path name reg_multi_sz (reread bytes)))
unfolding parse_hex_value parse_hex_value_type index_byte bytes_equal slice
parse_multi path name bytes h =
    let e = parse_hex_bytes-format_hex (codes "hex(7)") bytes refl h in ground (arith, e)

pub parse_dword :
    (path name : Bytes) (n : ℕ)
    → n < 2 ^ 32
    → parse_dword_value path name (hex_fixed 8 n)
      ≡ ok (set_value path name reg_dword (le_bytes 4 n))
unfolding parse_dword_value
parse_dword path name n h =
    let e = parse_digits-hex_fixed 8 n (omega arith) in
    let l = length-hex_fixed 8 n in ground (arith, e, l)

pub slice-quoted : (p rest : Bytes) (q : ℕ) → slice (length p) 1 (q ∷ p ++ rest) ≡ p
unfolding slice
slice-quoted p rest q = take-append_length p rest

module _ (utf16_encode : Bytes → List ℕ) where
  pub parse_quoted :
      (path name str : Bytes)
      → parse_string_value utf16_encode path name (quote ∷ escape_string str ++ quote ∷ [])
        ≡ ok (set_value path name reg_sz (encode_utf16le_zero_terminated utf16_encode str))
  unfolding parse_string_value
  parse_quoted path name str =
      let e = find_closing_quote-escape_string str [] in
      let u = unescape_reg_string-escape_string str in
      let c = slice-quoted (escape_string str) (quote ∷ []) quote in ground (arith, e, u, c)
