-- ===== src/Regtext/Parser/Once.antt =====
-- The keys that ParseReg creates: each of them once, and seenKeys is what they are.
use hivekit.Common.{
  ℕ, ◌≡◌, refl, ap, subst, ◌∙◌, arith, Bool, true, false, List, [], ◌∷◌, ◌++◌, Option, none, some,
  Outcome, ok, err, panic, ◌>>=◌, ◌||◌, not, drop, length, ltb, if-both, some_ok-inj,
}
use hivekit.Common.Bytes.{Bytes}
use hivekit.Common.Text.{backslash, codes, has_prefix}
use hivekit.Format.Consts.{bytes_equal}
use hivekit.Regmerge.Ordering.{EditOp, set_value, delete_value, create_key, delete_key, unknown}
use hivekit.Regtext.Hex.{TextError, malformed_section, missing_header, value_without_section}
use hivekit.Regtext.Values.{
  parse_hex_value, parse_string_value, parse_dword_value, parse_trimmed, parse_value,
  parse_value_line,
}
use hivekit.Regtext.Parser.{
  reg_file_header, ParseState, Step, start, is_seen, ends_with, but_last, trim_right_cr,
  trim_left_blanks, go_on, parse_section, parse_body, parse_text, parse_line, parse_lines,
}
use hivekit.Regtext.Parser.Accepts.{created, created-append}

abbrev is_value_op : EditOp → Bool
is_value_op (set_value path name type buffer) = true
is_value_op (delete_value path name) = true
is_value_op (create_key path) = false
is_value_op (delete_key path recursive) = false
is_value_op unknown = false

module _ (utf16_encode : Bytes → List ℕ) (path : Bytes) where
  hex-is_value_op :
      (name payload : Bytes) (op : EditOp)
      → parse_hex_value path name payload ≡ some (ok op)
      → is_value_op op ≡ true
  unfolding parse_hex_value
  hex-is_value_op name payload op h = ground arith

  string-is_value_op :
      (name payload : Bytes) (op : EditOp)
      → parse_string_value utf16_encode path name payload ≡ ok op
      → is_value_op op ≡ true
  unfolding parse_string_value
  string-is_value_op name payload op h = ground arith

  dword-is_value_op :
      (name payload : Bytes) (op : EditOp)
      → parse_dword_value path name payload ≡ ok op
      → is_value_op op ≡ true
  unfolding parse_dword_value
  dword-is_value_op name payload op h = ground arith

  trimmed-is_value_op :
      (name payload : Bytes) (op : EditOp)
      → parse_trimmed utf16_encode path name payload ≡ some (ok op)
      → is_value_op op ≡ true
  unfolding parse_trimmed
  trimmed-is_value_op name payload op h = ground (
    arith,
    hex-is_value_op name payload op,
    string-is_value_op name payload op,
    dword-is_value_op name (drop 6 payload) op,
  )

  line-is_value_op :
      (trim_space : Bytes → Bytes) (line : Bytes) (op : EditOp)
      → parse_value_line utf16_encode trim_space path line ≡ some (ok op)
      → is_value_op op ≡ true
  unfolding parse_value_line parse_value
  line-is_value_op trim_space line op h = grind (arith, trimmed-is_value_op)

-- No key stands twice.
abbrev pub IsDistinct : List Bytes → Type 0
IsDistinct [] = Unit
IsDistinct (key ∷ keys) = (is_seen key keys ≡ false) × IsDistinct keys

-- The keys created are the ones seen, the last in front, and none was created twice.
abbrev pub IsOnce : ParseState → Type 0
IsOnce st = (created st.ops [] ≡ st.seen_keys) × IsDistinct st.seen_keys

created_value :
    (ops : List EditOp) (op : EditOp)
    → is_value_op op ≡ true
    → created (ops ++ op ∷ []) [] ≡ created ops []
created_value ops (set_value path name type buffer) h =
    created-append ops (set_value path name type buffer ∷ []) []
created_value ops (delete_value path name) h = created-append ops (delete_value path name ∷ []) []
created_value ops (create_key path) h = absurd (cc)
created_value ops (delete_key path recursive) h = absurd (cc)
created_value ops unknown h = absurd (cc)

-- If there is a state behind the step, it is such a one.
abbrev Leaves : Step → Type 0
Leaves step = (st : ParseState) → step ≡ some (ok st) → IsOnce st

ok-Leaves : (st : ParseState) → IsOnce st → Leaves (some (ok st))
ok-Leaves st h st' e = subst IsOnce (some_ok-inj st st' e) h

err-Leaves : (problem : TextError) → Leaves (some (err problem))
err-Leaves problem st e = cc

go_on-Leaves :
    (step : Step) (next : ParseState → Step)
    → Leaves step
    → ((st : ParseState) → IsOnce st → Leaves (next st))
    → Leaves (go_on step next)
go_on-Leaves none next h k st e = cc
go_on-Leaves (some panic) next h k st e = cc
go_on-Leaves (some (err problem)) next h k st e = cc
go_on-Leaves (some (ok s)) next h k st e = k s (h s refl) st e

module _ (utf16_encode : Bytes → List ℕ) (trim_space : Bytes → Bytes) (allow : Bool) where
  section-Leaves :
      (trim : Bytes) (st : ParseState)
      → IsOnce st
      → Leaves (some (parse_section utf16_encode trim_space allow trim st))
  unfolding parse_section
  section-Leaves trim st (same, distinct) =
      let section : Bytes = but_last (drop 1 trim) in
      let gone : EditOp = delete_key (trim_space (drop 1 section)) true in
      let made : EditOp = create_key section in
      if-both (λ o. Leaves (some o)) (not (ends_with b']' trim))
        (λ bad. err-Leaves malformed_section)
        λ closed.
          if-both (λ o. Leaves (some o)) (has_prefix section (codes "-"))
            (λ deletes. ok-Leaves _ (created-append st.ops (gone ∷ []) [] ∙ same, distinct))
            λ names.
              if-both (λ o. Leaves (some o)) (is_seen section st.seen_keys)
                (λ known. ok-Leaves _ (same, distinct))
                λ fresh. ok-Leaves _ (
                  created-append st.ops (made ∷ []) [] ∙ ap (λ keys. section ∷ keys) same,
                  (fresh, distinct),
                )

  value-Leaves :
      (line : Bytes) (st : ParseState) (parsed : Option (Outcome TextError EditOp))
      → IsOnce st
      → ((op : EditOp) → parsed ≡ some (ok op) → is_value_op op ≡ true)
      → Leaves (elim parsed [
        | none ↦ none
        | some result ↦ some (do op ← result; ok (record st { ops = st.ops ++ op ∷ [] }))
      ])
  value-Leaves line st none once h st' e = cc
  value-Leaves line st (some panic) once h st' e = cc
  value-Leaves line st (some (err problem)) once h st' e = cc
  value-Leaves line st (some (ok op)) (same, distinct) h st' e =
      ok-Leaves _ (created_value st.ops op (h op refl) ∙ same, distinct) st' e

  body-Leaves :
      (trim : Bytes) (st : ParseState)
      → IsOnce st
      → Leaves (parse_body utf16_encode trim_space allow trim st)
  unfolding parse_body
  body-Leaves trim st once =
      if-both Leaves (has_prefix trim (codes "[")) (λ opens. section-Leaves trim st once)
        λ other.
          if-both Leaves (bytes_equal st.current []) (λ none_open. err-Leaves value_without_section)
            λ inside.
              value-Leaves trim st (parse_value_line utf16_encode trim_space st.current trim) once
                (line-is_value_op utf16_encode st.current trim_space trim)

  text-Leaves :
      (trim : Bytes) (st : ParseState)
      → IsOnce st
      → Leaves (parse_text utf16_encode trim_space allow trim st)
  unfolding parse_text
  text-Leaves trim st once =
      if-both Leaves (bytes_equal trim [] || has_prefix trim (codes ";"))
        (λ skips. ok-Leaves st once)
        λ other.
          if-both Leaves st.seen_header (λ seen. body-Leaves trim st once)
            λ unseen.
              if-both Leaves (bytes_equal trim reg_file_header) (λ here. ok-Leaves _ once)
                λ absent.
                  if-both Leaves (not allow) (λ bad. err-Leaves missing_header)
                    λ allowed. body-Leaves trim (record st { seen_header = true }) once

  line-Leaves :
      (raw : Bytes) (st : ParseState)
      → IsOnce st
      → Leaves (parse_line utf16_encode trim_space allow raw st)
  unfolding parse_line
  line-Leaves raw st once =
      if-both Leaves (ends_with backslash (trim_right_cr raw)) (λ continues. ok-Leaves _ once)
        λ whole.
          if-both Leaves (ltb 0 (length st.pending_line))
            (λ pending.
              text-Leaves (trim_space (st.pending_line ++ trim_left_blanks (trim_right_cr raw)))
                (record st { pending_line = [] }) once)
            λ alone. text-Leaves (trim_space (trim_right_cr raw)) st once

  lines-Leaves :
      (lines : List Bytes) (st : ParseState)
      → IsOnce st
      → Leaves (parse_lines utf16_encode trim_space allow lines st)
  unfolding parse_lines
  lines-Leaves [] st once = ok-Leaves st once
  lines-Leaves (line ∷ lines) st once =
      go_on-Leaves (parse_line utf16_encode trim_space allow line st) _ (line-Leaves line st once)
        λ st'. lines-Leaves lines st'

  -- When the loop of ParseReg takes all lines, from its first state on, the map of seen keys is
  -- the keys that the operations create, the last in front, and none of them is created twice.
  pub parse_lines-IsOnce :
      (lines : List Bytes) (st : ParseState)
      → parse_lines utf16_encode trim_space allow lines start ≡ some (ok st)
      → IsOnce st
  parse_lines-IsOnce lines = lines-Leaves lines start (refl, tt)
