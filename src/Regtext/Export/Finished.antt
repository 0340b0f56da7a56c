-- ===== src/Regtext/Export/Finished.antt =====
-- Exports that succeed: the name of the root, and the encoding of the text.
use hivekit.Common.{
  ◌≡◌, refl, sym, ◌∙◌, arith, Bool, true, ◌||◌, List, [], ◌++◌, ℕ, Option, none, some, Outcome, ok,
  err, panic, some_ok-inj,
}
use hivekit.Common.Bytes.{Bytes}
use hivekit.Common.Text.{codes}
use hivekit.Format.Consts.{bytes_equal}
use hivekit.Regtext.Hex.{TextError}
use hivekit.Regtext.Values.{crlf}
use hivekit.Regtext.Parser.{reg_file_header}
use hivekit.Regtext.Export.{with_name, finish, encode_text}

-- The names of UTF-8, in upper case.
abbrev pub IsUtf8 : Bytes → Type 0
IsUtf8 name = (bytes_equal name [] || bytes_equal name (codes "UTF-8")) ≡ true

pub with_name-ok :
    {A : Type 0} (o : Outcome TextError Bytes) (next : Bytes → Option (Outcome TextError A)) (a : A)
    → with_name o next ≡ some (ok a)
    → (name : Bytes) × (o ≡ ok name) × (next name ≡ some (ok a))
with_name-ok panic next a e = cc
with_name-ok (err problem) next a e = cc
with_name-ok (ok name) next a e = (name, refl, e)

module _ (utf16_encode : Bytes → List ℕ) where
  utf8_text :
      (upper_name text : Bytes) (with_bom : Bool)
      → IsUtf8 upper_name
      → some (encode_text utf16_encode upper_name with_bom text) ≡ some (ok text)
  unfolding encode_text
  utf8_text upper_name text with_bom h = ground (arith, h)

  pub finish-ok :
      (upper_name : Bytes) (with_bom : Bool) (o : Option (Outcome TextError Bytes)) (text : Bytes)
      → IsUtf8 upper_name
      → finish
          (λ t. encode_text utf16_encode upper_name with_bom (reg_file_header ++ crlf ++ crlf ++ t))
          o
        ≡ some (ok text)
      → (body : Bytes) × (o ≡ some (ok body)) × (text ≡ reg_file_header ++ crlf ++ crlf ++ body)
  unfolding encode_text
  finish-ok upper_name with_bom none text utf8 e = cc
  finish-ok upper_name with_bom (some panic) text utf8 e = cc
  finish-ok upper_name with_bom (some (err problem)) text utf8 e = cc
  finish-ok upper_name with_bom (some (ok body)) text utf8 e =
      (body, refl, sym (some_ok-inj _ text (sym (utf8_text upper_name _ with_bom utf8) ∙ e)))
