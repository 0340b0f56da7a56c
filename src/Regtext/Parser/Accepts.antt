-- ===== src/Regtext/Parser/Accepts.antt =====
-- Lines that the parser takes, and the operations that they add.
use mathlib.Core.List.{append_assoc}
use hivekit.Common.{
  ℕ, ◌≡◌, refl, sym, ap, subst, ◌∙◌, arith, Bool, true, false, List, [], ◌∷◌, ◌++◌, none, some, ok,
  err, panic,
}
use hivekit.Common.Bytes.{Bytes}
use hivekit.Common.Text.{backslash, codes, has_prefix}
use hivekit.Format.Consts.{bytes_equal}
use hivekit.Regmerge.Ordering.{EditOp, set_value, delete_value, create_key, delete_key, unknown}
use hivekit.Regtext.Values.{parse_value_line}
use hivekit.Regtext.Values.Marks.{IsMark, IsSolid, last_byte, last_byte-append}
use hivekit.Regtext.Values.Names.{TrimsSpace, IsPlain}
use hivekit.Regtext.Parser.{
  ParseState, is_seen, ends_with, but_last, trim_right_cr, parse_section, parse_body, parse_text,
  parse_line, parse_lines, Step, go_on,
}

trim_right_cr-mark : (x : ℕ) (s : Bytes) → IsMark (last_byte x s) → trim_right_cr (x ∷ s) ≡ x ∷ s
unfolding trim_right_cr last_byte
trim_right_cr-mark x [] h = ground arith
trim_right_cr-mark x (y ∷ s) h = let rest = trim_right_cr-mark y s h in ground (arith, rest)

trim_right_cr-solid : (s : Bytes) → IsSolid s → trim_right_cr s ≡ s
unfolding IsSolid
trim_right_cr-solid [] h = unfold trim_right_cr in refl
trim_right_cr-solid (x ∷ s) h = trim_right_cr-mark x s h.1

ends_with-mark : (x : ℕ) (s : Bytes) → IsMark (last_byte x s) → ends_with backslash (x ∷ s) ≡ false
unfolding ends_with last_byte
ends_with-mark x [] h = ground arith
ends_with-mark x (y ∷ s) h = ends_with-mark y s h

ends_with-solid : (s : Bytes) → IsSolid s → ends_with backslash s ≡ false
unfolding IsSolid
ends_with-solid [] h = unfold ends_with in refl
ends_with-solid (x ∷ s) h = ends_with-mark x s h.1

pub but_last-append : (s : Bytes) (x : ℕ) → but_last (s ++ x ∷ []) ≡ s
unfolding but_last
but_last-append [] x = refl
but_last-append (y ∷ []) x = refl
but_last-append (y ∷ z ∷ s) x = ap (λ t. y ∷ t) (but_last-append (z ∷ s) x)

pub ends_with-append : (c x : ℕ) (s : Bytes) → ends_with c (x ∷ s ++ c ∷ []) ≡ true
unfolding ends_with
ends_with-append c x [] = ground arith
ends_with-append c x (y ∷ s) = ends_with-append c y s

-- Paths that a section line creates as they are: not empty, and not the mark of a deletion.
abbrev pub IsSection : Bytes → Type 0
IsSection path = (bytes_equal path [] ≡ false) × (has_prefix path (codes "-") ≡ false)

-- Every key is created once, as a section, and `keys` were created before.
abbrev pub CreatesOnce : List EditOp → List Bytes → Type 0
CreatesOnce [] keys = Unit
CreatesOnce (create_key path ∷ ops) keys =
    IsSection path × (is_seen path keys ≡ false) × CreatesOnce ops (path ∷ keys)
CreatesOnce (set_value path name type buffer ∷ ops) keys = CreatesOnce ops keys
CreatesOnce (delete_value path name ∷ ops) keys = CreatesOnce ops keys
CreatesOnce (delete_key path recursive ∷ ops) keys = CreatesOnce ops keys
CreatesOnce (unknown ∷ ops) keys = CreatesOnce ops keys

abbrev pub created : List EditOp → List Bytes → List Bytes
created [] keys = keys
created (create_key path ∷ ops) keys = created ops (path ∷ keys)
created (set_value path name type buffer ∷ ops) keys = created ops keys
created (delete_value path name ∷ ops) keys = created ops keys
created (delete_key path recursive ∷ ops) keys = created ops keys
created (unknown ∷ ops) keys = created ops keys

pub CreatesOnce-append :
    (a b : List EditOp) (keys : List Bytes)
    → CreatesOnce (a ++ b) keys
    → CreatesOnce a keys × CreatesOnce b (created a keys)
CreatesOnce-append [] b keys h = (tt, h)
CreatesOnce-append (create_key path ∷ a) b keys (h, k, t) =
    let (l, m) = CreatesOnce-append a b (path ∷ keys) t in ((h, k, l), m)
CreatesOnce-append (set_value path name type buffer ∷ a) b keys h = CreatesOnce-append a b keys h
CreatesOnce-append (delete_value path name ∷ a) b keys h = CreatesOnce-append a b keys h
CreatesOnce-append (delete_key path recursive ∷ a) b keys h = CreatesOnce-append a b keys h
CreatesOnce-append (unknown ∷ a) b keys h = CreatesOnce-append a b keys h

pub created-append :
    (a b : List EditOp) (keys : List Bytes) → created (a ++ b) keys ≡ created b (created a keys)
created-append [] b keys = refl
created-append (create_key path ∷ a) b keys = created-append a b (path ∷ keys)
created-append (set_value path name type buffer ∷ a) b keys = created-append a b keys
created-append (delete_value path name ∷ a) b keys = created-append a b keys
created-append (delete_key path recursive ∷ a) b keys = created-append a b keys
created-append (unknown ∷ a) b keys = created-append a b keys

-- A state of the loop behind the header, at no continued line.
abbrev pub IsBody : ParseState → Type 0
IsBody st = (st.seen_header ≡ true) × (st.pending_line ≡ [])

go_on-ok :
    (o : Step) (next next' : ParseState → Step) (st : ParseState) (r : Step)
    → go_on o next ≡ some (ok st)
    → ((s : ParseState) → next s ≡ some (ok st) → next' s ≡ r)
    → go_on o next' ≡ r
go_on-ok none next next' st r h k = cc
go_on-ok (some panic) next next' st r h k = cc
go_on-ok (some (err problem)) next next' st r h k = cc
go_on-ok (some (ok s)) next next' st r h k = k s h

module _ (utf16_encode : Bytes → List ℕ) (trim_space : Bytes → Bytes)
    (trims : TrimsSpace trim_space) (allow : Bool) where
  -- The lines are taken, and add exactly these operations.
  pub record Adds (lines : List Bytes) (ops : List EditOp) (current : Bytes) (st : ParseState)
      : Type 0 where
    pub after : ParseState
    pub parsed : parse_lines utf16_encode trim_space allow lines st ≡ some (ok after)
    pub body : IsBody after
    pub added : after.ops ≡ st.ops ++ ops
    pub keys : after.seen_keys ≡ created ops st.seen_keys
    pub at : after.current ≡ current

  -- A line without white space at its ends goes to the tests as it is.
  pub solid_line :
      (line : Bytes) (st : ParseState)
      → IsSolid line
      → st.pending_line ≡ []
      → parse_line utf16_encode trim_space allow line st
        ≡ parse_text utf16_encode trim_space allow line st
  unfolding parse_line
  solid_line line st solid none_pending =
      let a = trim_right_cr-solid line solid in
      let b = ends_with-solid line solid in
      let c = trims line solid in ground (arith, a, b, c, none_pending)

  pub value_line :
      (line name bytes path : Bytes) (type : ℕ) (st : ParseState)
      → IsSolid line
      → IsPlain line
      → IsBody st
      → st.current ≡ path
      → bytes_equal path [] ≡ false
      → parse_value_line utf16_encode trim_space path line
        ≡ some (ok (set_value path name type bytes))
      → parse_line utf16_encode trim_space allow line st
        ≡ some (ok (record st { ops = st.ops ++ set_value path name type bytes ∷ [] }))
  unfolding parse_text parse_body
  value_line line name bytes path type st solid (filled, comment, section) (seen, pending) here
        named read =
      let l = solid_line line st solid pending in
      let same : parse_value_line utf16_encode trim_space st.current line
          ≡ some (ok (set_value path name type bytes)) =
        ap (λ p. parse_value_line utf16_encode trim_space p line) here ∙ read in
      let named_here : bytes_equal st.current [] ≡ false =
        ap (λ p. bytes_equal p []) here ∙ named in
      l ∙ ground (arith, filled, comment, section, seen, same, named_here)

  pub empty_line :
      (st : ParseState)
      → st.pending_line ≡ []
      → parse_line utf16_encode trim_space allow [] st ≡ some (ok st)
  unfolding parse_text bytes_equal IsSolid
  empty_line st pending = solid_line [] st tt pending

  pub section_line :
      (path : Bytes) (st : ParseState)
      → IsSection path
      → is_seen path st.seen_keys ≡ false
      → IsBody st
      → parse_line utf16_encode trim_space allow (b'[' ∷ path ++ b']' ∷ []) st
        ≡ some (
            ok (record st {
              ops = st.ops ++ create_key path ∷ [];
              seen_keys = path ∷ st.seen_keys;
              current = path;
            }))
  unfolding parse_text parse_body parse_section IsSolid bytes_equal has_prefix
  section_line path st (named, kept) fresh (seen, pending) =
      let solid : IsSolid (b'[' ∷ path ++ b']' ∷ []) =
        (refl, subst IsMark (sym (last_byte-append path [] b'[' b']')) refl) in
      let l = solid_line (b'[' ∷ path ++ b']' ∷ []) st solid pending in
      let ends = ends_with-append b']' b'[' path in
      let inner = but_last-append path b']' in l ∙ ground (arith, seen, ends, inner, kept, fresh)

  pub one_more :
      (line : Bytes) (lines : List Bytes) (st st' : ParseState)
      → parse_line utf16_encode trim_space allow line st ≡ some (ok st')
      → parse_lines utf16_encode trim_space allow (line ∷ lines) st
        ≡ parse_lines utf16_encode trim_space allow lines st'
  unfolding parse_lines
  one_more line lines st st' h =
      ap (λ o. go_on o λ s. parse_lines utf16_encode trim_space allow lines s) h

  pub no_more : (st : ParseState) → parse_lines utf16_encode trim_space allow [] st ≡ some (ok st)
  unfolding parse_lines
  no_more st = refl

  pub parse_lines-append :
      (a b : List Bytes) (st st' : ParseState)
      → parse_lines utf16_encode trim_space allow a st ≡ some (ok st')
      → parse_lines utf16_encode trim_space allow (a ++ b) st
        ≡ parse_lines utf16_encode trim_space allow b st'
  unfolding parse_lines
  parse_lines-append [] b st st' h =
      ap (λ o. go_on o λ s. parse_lines utf16_encode trim_space allow b s) h
  parse_lines-append (line ∷ a) b st st' h =
      go_on-ok (parse_line utf16_encode trim_space allow line st) _ _ _ _ h
        λ s. parse_lines-append a b s st'

  pub Adds-append :
      (a b : List Bytes) (ops more : List EditOp) (at_a at_b : Bytes) (st : ParseState)
      (first : Adds a ops at_a st)
      → Adds b more at_b first.after
      → Adds (a ++ b) (ops ++ more) at_b st
  Adds-append a b ops more at_a at_b st first second = record {
    after = second.after;
    parsed = parse_lines-append a b st first.after first.parsed ∙ second.parsed;
    body = second.body;
    added = second.added ∙ ap (λ o. o ++ more) first.added ∙ append_assoc st.ops ops more;
    keys = second.keys ∙ ap (created more) first.keys ∙ sym (created-append ops more st.seen_keys);
    at = second.at;
  }
