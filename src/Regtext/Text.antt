-- ===== src/Regtext/Text.antt =====
-- internal/regtext: escapes and quotes (emit.go escapeString; utils.go, the versions on bytes and on
-- strings, which do the same).
pub mod Escaped
use hivekit.Common.{
  ℕ, ◌+◌, ◌-◌, ◌%◌, Bool, true, false, ◌&&◌, [], ◌∷◌, ◌++◌, Option, none, some, length, take, drop,
  leb, ◌==◌, if◌then◌else◌,
}
use hivekit.Common.Bytes.{Bytes}
use hivekit.Common.Text.{backslash}

abbrev pub quote : ℕ
quote = b'"'

-- strings.ReplaceAll of a string of one byte.
unfoldable pub replace_byte : ℕ → Bytes → Bytes → Bytes
replace_byte a by [] = []
replace_byte a by (x ∷ s) = (if x == a then by else x ∷ []) ++ replace_byte a by s

-- strings.ReplaceAll of the two bytes `a` and `b` by the byte `c`, from left to right: what is
-- written at a byte, and whether an `a` is kept back behind it.
unfoldable pub pair_out : ℕ → ℕ → ℕ → Bool → ℕ → Bytes
pair_out a b c false x = if x == a then [] else x ∷ []
pair_out a b c true x = if x == b then c ∷ [] else if x == a then a ∷ [] else a ∷ x ∷ []

unfoldable pub pair_kept : ℕ → ℕ → Bool → ℕ → Bool
pair_kept a b false x = x == a
pair_kept a b true x = if x == b then false else x == a

unfoldable pub replace_pair : ℕ → ℕ → ℕ → Bool → Bytes → Bytes
unfolding pair_out pair_kept
replace_pair a b c false [] = []
replace_pair a b c true [] = a ∷ []
replace_pair a b c kept (x ∷ s) =
    pair_out a b c kept x ++ replace_pair a b c (pair_kept a b kept x) s

-- bytes.IndexByte
unfoldable pub index_byte : ℕ → Bytes → Option ℕ
index_byte x [] = none
index_byte x (y ∷ s) =
    let rest = index_byte x s in
    if y == x then some 0 else elim rest [ none ↦ none | some i ↦ some (i + 1) ]

unfoldable pub escape_string : Bytes → Bytes
unfolding replace_byte
escape_string s =
    let doubled = replace_byte backslash (backslash ∷ backslash ∷ []) s in
    replace_byte quote (backslash ∷ quote ∷ []) doubled

-- unescapeRegString and unescapeRegStringBytes.
unfoldable pub unescape_reg_string : Bytes → Bytes
unfolding replace_pair index_byte
unescape_reg_string b =
    let single = replace_pair backslash backslash backslash false b in
    elim (index_byte backslash b) [
      | none ↦ b
      | some i ↦ replace_pair backslash quote quote false single
    ]

-- The backslashes in front of a place, whose bytes are given from it backwards.
unfoldable pub num_backslashes : Bytes → ℕ
num_backslashes [] = 0
num_backslashes (x ∷ before) =
    let more = num_backslashes before in if x == backslash then 1 + more else 0

-- The loop of findClosingQuote at `i`, behind the bytes `before`; -1 is none.
unfoldable pub closing_quote_from : ℕ → Bytes → Bytes → Option ℕ
unfolding num_backslashes
closing_quote_from i before [] = none
closing_quote_from i before (x ∷ line) =
    let later = closing_quote_from (i + 1) (x ∷ before) line in
    if x == quote && num_backslashes before % 2 == 0 then some i else later

-- findClosingQuote and findClosingQuoteBytes.
unfoldable pub find_closing_quote : Bytes → Option ℕ
unfolding closing_quote_from
find_closing_quote [] = none
find_closing_quote (x ∷ line) = closing_quote_from 1 (x ∷ []) line
