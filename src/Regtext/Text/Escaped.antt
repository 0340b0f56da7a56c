-- ===== src/Regtext/Text/Escaped.antt =====
-- Escaped strings: unescaping undoes the escapes, and the closing quote is the first behind them.
use hivekit.Common.{ℕ, ◌+◌, ◌%◌, ◌≡◌, refl, arith, true, false, [], ◌∷◌, ◌++◌, none, some, length}
use hivekit.Common.Bytes.{Bytes}
use hivekit.Common.Text.{backslash}
use hivekit.Regtext.Text.{
  quote, replace_byte, replace_pair, pair_out, pair_kept, index_byte, escape_string,
  unescape_reg_string, num_backslashes, closing_quote_from, find_closing_quote,
}

-- The quotes alone escaped.
abbrev half : Bytes → Bytes
unfolding replace_byte
half s = replace_byte quote (backslash ∷ quote ∷ []) s

halved : (s : Bytes) → replace_pair backslash backslash backslash false (escape_string s) ≡ half s
unfolding replace_pair escape_string replace_byte pair_out pair_kept
halved [] = refl
halved (x ∷ s) = ground (arith, halved s)

-- The two states of the second replacement: a backslash of the string is kept back until the next
-- byte is seen.
restored :
    (s : Bytes)
    → (replace_pair backslash quote quote false (half s) ≡ s)
      × (replace_pair backslash quote quote true (half s) ≡ backslash ∷ s)
unfolding replace_pair replace_byte pair_out pair_kept half
restored [] = (refl, refl)
restored (x ∷ s) = let (a, b) = restored s in (ground (arith, a, b), ground (arith, a, b))

unescaped_none : (s : Bytes) → index_byte backslash (escape_string s) ≡ none → escape_string s ≡ s
unfolding escape_string replace_byte index_byte
unescaped_none [] h = refl
unescaped_none (x ∷ s) h = ground (arith, unescaped_none s)

pub unescape_reg_string-escape_string : (s : Bytes) → unescape_reg_string (escape_string s) ≡ s
unfolding unescape_reg_string
unescape_reg_string-escape_string s =
    let e = unescaped_none s in
    let a = halved s in let (b, c) = restored s in ground (arith, e, a, b)

close_escaped :
    (s before rest : Bytes) (i : ℕ)
    → num_backslashes before % 2 ≡ 0
    → closing_quote_from i before (escape_string s ++ quote ∷ rest)
      ≡ some (i + length (escape_string s))
unfolding closing_quote_from escape_string replace_byte num_backslashes
close_escaped [] before rest i h = ground arith
close_escaped (x ∷ s) before rest i h = ground (
  arith,
  close_escaped s (x ∷ before) rest (i + 1),
  close_escaped s (x ∷ backslash ∷ before) rest (i + 2),
)

pub find_closing_quote-escape_string :
    (s rest : Bytes)
    → find_closing_quote (quote ∷ escape_string s ++ quote ∷ rest)
      ≡ some (1 + length (escape_string s))
unfolding find_closing_quote num_backslashes
find_closing_quote-escape_string s rest = close_escaped s (quote ∷ []) rest 1 refl
