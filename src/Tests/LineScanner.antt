-- ===== src/Tests/LineScanner.antt =====
-- A scanner of lines, as bufio.ScanLines splits a text: at each line feed, without one carriage
-- return in front of it.
use hivekit.Common.{
  ℕ, ◌≡◌, refl, ap, ◌∙◌, arith, All, List, [], ◌∷◌, ◌++◌, map, Option, none, ◌==◌, if◌then◌else◌,
}
use hivekit.Common.Bytes.{Bytes}
use hivekit.Regtext.Hex.{TextError}
use hivekit.Regtext.Values.{crlf}
use hivekit.Regtext.Parser.{ends_with, but_last}
use hivekit.Regtext.Parser.Accepts.{ends_with-append, but_last-append}
use hivekit.Regtext.Lines.{unlines, feeds, IsLine, IsScanner}

into_first : ℕ → List Bytes → List Bytes
into_first x [] = (x ∷ []) ∷ []
into_first x (line ∷ lines) = (x ∷ line) ∷ lines

split_lines : Bytes → List Bytes
unfolding into_first
split_lines [] = []
split_lines (x ∷ s) =
    let rest = split_lines s in if x == b'\n' then [] ∷ rest else into_first x rest

drop_cr : Bytes → Bytes
unfolding ends_with but_last
drop_cr line = if ends_with b'\r' line then but_last line else line

unfoldable pub scan_lines : Bytes → List Bytes × Option TextError
unfolding split_lines drop_cr
scan_lines s = (map drop_cr (split_lines s), none)

split_lines-line :
    (line rest : Bytes)
    → feeds line ≡ 0
    → split_lines ((line ++ crlf) ++ rest) ≡ (line ++ b'\r' ∷ []) ∷ split_lines rest
unfolding split_lines feeds
split_lines-line [] rest h = refl
split_lines-line (x ∷ line) rest h = ground (arith, split_lines-line line rest)

drop_cr-append : (line : Bytes) → drop_cr (line ++ b'\r' ∷ []) ≡ line
unfolding drop_cr
drop_cr-append [] = refl
drop_cr-append (x ∷ line) =
    ground (arith, ends_with-append b'\r' x line, but_last-append (x ∷ line) b'\r')

scanned :
    (lines : List Bytes) → All IsLine lines → map drop_cr (split_lines (unlines lines)) ≡ lines
scanned [] h = unfold split_lines in refl
scanned (line ∷ lines) h =
    ap (map drop_cr) (split_lines-line line (unlines lines) h.0.0)
    ∙ ap (λ l. l ∷ map drop_cr (split_lines (unlines lines))) (drop_cr-append line)
    ∙ ap (λ ls. line ∷ ls) (scanned lines h.1)

pub scan_lines-IsScanner : IsScanner scan_lines
unfolding scan_lines
scan_lines-IsScanner = record {
  scans = λ lines kept short. ap (λ ls. (ls, none)) (scanned lines kept);
}
