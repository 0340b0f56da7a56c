-- ===== src/Regtext/Parser/Recreated.antt =====
-- A key that a file deletes and names again.
use hivekit.Common.{
  ℕ, ◌≡◌, refl, sym, subst, ◌∙◌, arith, Bool, true, false, List, [], ◌∷◌, ◌++◌, some, ok,
}
use hivekit.Common.Bytes.{Bytes}
use hivekit.Common.Text.{has_prefix}
use hivekit.Format.Consts.{bytes_equal}
use hivekit.Regmerge.Ordering.{create_key, delete_key}
use hivekit.Regtext.Values.Marks.{IsMark, IsSolid, last_byte-append}
use hivekit.Regtext.Values.Names.{TrimsSpace}
use hivekit.Regtext.Parser.{
  ParseState, is_seen, parse_section, parse_body, parse_text, parse_line, parse_lines,
}
use hivekit.Regtext.Parser.Accepts.{
  IsBody, IsSection, solid_line, section_line, one_more, no_more, ends_with-append, but_last-append,
}

bytes_equal_self : (b : Bytes) → bytes_equal b b ≡ true
unfolding bytes_equal
bytes_equal_self [] = refl
bytes_equal_self (x ∷ b) = ground (arith, bytes_equal_self b)

module _ (utf16_encode : Bytes → List ℕ) (trim_space : Bytes → Bytes)
    (trims : TrimsSpace trim_space) (allow : Bool) where
  deletion_line :
      (path : Bytes) (st : ParseState)
      → IsSolid path
      → IsBody st
      → parse_line utf16_encode trim_space allow (b'[' ∷ b'-' ∷ path ++ b']' ∷ []) st
        ≡ some (ok (record st { ops = st.ops ++ delete_key path true ∷ []; current = [] }))
  unfolding parse_text parse_body parse_section IsSolid bytes_equal has_prefix
  deletion_line path st solid (seen, pending) =
      let whole : IsSolid (b'[' ∷ b'-' ∷ path ++ b']' ∷ []) =
        (refl, subst IsMark (sym (last_byte-append (b'-' ∷ path) [] b'[' b']')) refl) in
      let l =
        solid_line utf16_encode trim_space trims allow (b'[' ∷ b'-' ∷ path ++ b']' ∷ []) st whole
          pending in
      let ends = ends_with-append b']' b'[' (b'-' ∷ path) in
      let inner = but_last-append (b'-' ∷ path) b']' in
      let t = trims path solid in l ∙ ground (arith, seen, ends, inner, t)

  known_line :
      (path : Bytes) (st : ParseState)
      → IsSection path
      → is_seen path st.seen_keys ≡ true
      → IsBody st
      → parse_line utf16_encode trim_space allow (b'[' ∷ path ++ b']' ∷ []) st
        ≡ some (ok (record st { current = path }))
  unfolding parse_text parse_body parse_section IsSolid bytes_equal has_prefix
  known_line path st (named, kept) known (seen, pending) =
      let solid : IsSolid (b'[' ∷ path ++ b']' ∷ []) =
        (refl, subst IsMark (sym (last_byte-append path [] b'[' b']')) refl) in
      let l =
        solid_line utf16_encode trim_space trims allow (b'[' ∷ path ++ b']' ∷ []) st solid
          pending in
      let ends = ends_with-append b']' b'[' path in
      let inner = but_last-append path b']' in l ∙ ground (arith, seen, ends, inner, kept, known)

  -- Behind the header, a section of a new path, the deletion of that path and then its section
  -- again come out as a creation and then the deletion: the second section adds no operation. The
  -- path begins and ends with a mark of ASCII other than a backslash, and does not begin with a
  -- minus sign.
  pub recreation_lost :
      (path : Bytes) (st : ParseState)
      → IsBody st
      → IsSection path
      → IsSolid path
      → is_seen path st.seen_keys ≡ false
      → parse_lines utf16_encode trim_space allow
          ((b'[' ∷ path ++ b']' ∷ [])
            ∷ (b'[' ∷ b'-' ∷ path ++ b']' ∷ [])
            ∷ (b'[' ∷ path ++ b']' ∷ [])
            ∷ [])
          st
        ≡ some (
            ok (record st {
              ops = (st.ops ++ create_key path ∷ []) ++ delete_key path true ∷ [];
              seen_keys = path ∷ st.seen_keys;
              current = path;
            }))
  unfolding is_seen
  recreation_lost path st body section solid fresh =
      let st1 : ParseState = record st {
        ops = st.ops ++ create_key path ∷ [];
        seen_keys = path ∷ st.seen_keys;
        current = path;
      } in
      let st2 : ParseState = record st1 {
        ops = st1.ops ++ delete_key path true ∷ [];
        current = [];
      } in
      let self = bytes_equal_self path in
      let known : is_seen path (path ∷ st.seen_keys) ≡ true = ground (arith, self) in
      one_more utf16_encode trim_space trims allow _ _ st st1
        (section_line utf16_encode trim_space trims allow path st section fresh body)
      ∙ one_more utf16_encode trim_space trims allow _ _ st1 st2 (deletion_line path st1 solid body)
      ∙ one_more utf16_encode trim_space trims allow _ _ st2 (record st2 { current = path })
          (known_line path st2 section known body)
      ∙ no_more utf16_encode trim_space trims allow (record st2 { current = path })
