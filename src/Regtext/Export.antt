-- ===== src/Regtext/Export.antt =====
-- internal/regtext/emit.go: ExportReg and exportKey over types.Reader, and encodeUTF16LE (lexer.go).
-- The recursion into the subkeys has fuel: how deep a hive is, the reader decides.
pub mod OneLine
pub mod Keys
pub mod RoundTrip
pub mod Finished
pub mod Imported
pub mod Reached
pub mod Sections
pub mod NeverPanics
pub mod Depth
use hivekit.Common.{
  ℕ, zero, suc, Bool, List, [], ◌∷◌, ◌++◌, map, Option, none, some, Outcome, ok, err, panic, ◌>>=◌,
  ◌||◌, if◌then◌else◌,
}
use hivekit.Common.Bytes.{Bytes}
use hivekit.Common.Text.{backslash, codes}
use hivekit.Format.Consts.{bytes_equal}
use hivekit.Regtext.Hex.{TextError, unsupported_encoding}
use hivekit.Regtext.Values.{ValueMeta, Reader, crlf, put_words, emit_value}
use hivekit.Regtext.Parser.{reg_file_header}

-- types.Reader, as far as exportKey calls it, on ids `K` of keys and `V` of values. The two orders
-- are what sort.Slice makes of the values by their names, and of the children by their lower-case
-- names: it is not stable.
pub record KeyReader (K V : Type 0) : Type 0 where
  pub reader : Reader V
  pub stat_key : K → Outcome TextError Bytes
  pub values : K → Outcome TextError (List V)
  pub stat_value : V → Outcome TextError ValueMeta
  pub subkeys : K → Outcome TextError (List K)
  pub sort_values : List V → List V
  pub sort_children : List (Bytes × K) → List (Bytes × K)

-- strings.Join with Backslash; the path is its segments.
unfoldable pub join_path : List Bytes → Bytes
join_path [] = []
join_path (name ∷ []) = name
join_path (name ∷ next ∷ path) = name ++ backslash ∷ join_path (next ∷ path)

-- Two parts of a run, one behind the other, of which the first that fails ends it.
abbrev pub follow :
    {A : Type 0}
    → Option (Outcome TextError (List A))
    → Option (Outcome TextError (List A))
    → Option (Outcome TextError (List A))
follow none later = none
follow (some panic) later = some panic
follow (some (err problem)) later = some (err problem)
follow (some (ok xs)) none = none
follow (some (ok xs)) (some later) = some (do ys ← later; ok (xs ++ ys))

-- What follows the name of the root, and what is done with a text, if there is one.
abbrev pub with_name :
    {A : Type 0}
    → Outcome TextError Bytes
    → (Bytes → Option (Outcome TextError A))
    → Option (Outcome TextError A)
with_name panic next = some panic
with_name (err problem) next = some (err problem)
with_name (ok name) next = next name

abbrev pub finish :
    (Bytes → Outcome TextError Bytes)
    → Option (Outcome TextError Bytes)
    → Option (Outcome TextError Bytes)
finish last none = none
finish last (some result) = some (do text ← result; last text)

module _ (utf16_encode : Bytes → List ℕ) where
  unfoldable pub encode_utf16le : Bytes → Bool → Bytes
  unfolding put_words
  encode_utf16le s with_bom =
      (if with_bom then 0xFF ∷ 0xFE ∷ [] else []) ++ put_words (utf16_encode s)

  -- The encoding of the text, by its name in upper case.
  unfoldable pub encode_text : Bytes → Bool → Bytes → Outcome TextError Bytes
  unfolding encode_utf16le bytes_equal
  encode_text upper_name with_bom text =
      if bytes_equal upper_name [] || bytes_equal upper_name (codes "UTF-8")
      then ok text
      else if bytes_equal upper_name (codes "UTF-16LE")
      then ok (encode_utf16le text with_bom)
      else err unsupported_encoding

module _ {K V : Type 0} (r : KeyReader K V) where
  unfoldable pub stat_children : List K → Outcome TextError (List (Bytes × K))
  stat_children [] = ok []
  stat_children (id ∷ subkeys) = do
    name ← r.stat_key id
    rest ← stat_children subkeys
    ok ((name, id) ∷ rest)

  unfoldable pub children : K → Outcome TextError (List (Bytes × K))
  unfolding stat_children
  children id = do subkeys ← r.subkeys id; named ← stat_children subkeys; ok (r.sort_children named)

  -- The recursion of exportKey, over what it writes for one key.
  module _ {A : Type 0} (piece : List Bytes → K → Outcome TextError (List A)) where
    abbrev pub walk_all :
        (Bytes × K → Option (Outcome TextError (List A)))
        → List (Bytes × K)
        → Option (Outcome TextError (List A))
    walk_all next [] = some (ok [])
    walk_all next (child ∷ more) = follow (next child) (walk_all next more)

    abbrev pub walk_listed :
        (Bytes × K → Option (Outcome TextError (List A)))
        → Outcome TextError (List (Bytes × K))
        → Option (Outcome TextError (List A))
    walk_listed next panic = some panic
    walk_listed next (err problem) = some (err problem)
    walk_listed next (ok listed) = walk_all next listed

    unfoldable pub walk : ℕ → List Bytes → K → Option (Outcome TextError (List A))
    unfolding children
    walk zero path id = none
    walk (suc fuel) path id =
        let below =
          walk_listed (λ (name, child). walk fuel (path ++ name ∷ []) child) (children id) in
        follow (some (piece path id)) below

  module _ (utf16_encode : Bytes → List ℕ) where
    unfoldable pub emit_values : List V → Outcome TextError Bytes
    unfolding emit_value
    emit_values [] = ok []
    emit_values (id ∷ values) = do
      meta ← r.stat_value id
      text ← emit_value utf16_encode r.reader id meta
      rest ← emit_values values
      ok (text ++ rest)

    -- What exportKey writes for the key itself.
    unfoldable pub key_text : List Bytes → K → Outcome TextError Bytes
    unfolding emit_values join_path
    key_text path id = do
      values ← r.values id
      text ← emit_values (r.sort_values values)
      ok ((b'[' ∷ join_path path ++ b']' ∷ crlf) ++ (text ++ crlf))

    unfoldable pub export_key : ℕ → List Bytes → K → Option (Outcome TextError Bytes)
    unfolding walk key_text
    export_key fuel path id = walk key_text fuel path id

    -- ExportReg, with strings.ToUpper of the name of the encoding.
    unfoldable pub export_reg : ℕ → K → Bytes → Bool → Option (Outcome TextError Bytes)
    unfolding export_key encode_text
    export_reg fuel root upper_name with_bom = with_name (r.stat_key root) λ name.
        finish
          (λ text.
            encode_text utf16_encode upper_name with_bom (reg_file_header ++ crlf ++ crlf ++ text))
          (export_key fuel (name ∷ []) root)
