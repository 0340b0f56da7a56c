-- ===== src/Regtext/Export/Sections.antt =====
-- The sections that ExportReg writes for the keys below the root, and the lines of their values.
use mathlib.Core.List.{Memᴰ}
use mathlib.Core.List.Memᴰ
use hivekit.Common.{ℕ, ◌≡◌, List, ◌∷◌, ◌++◌, ok}
use hivekit.Common.Bytes.{Bytes}
use hivekit.Regtext.Values.{ValueMeta, crlf, emit_value}
use hivekit.Regtext.Export.{KeyReader, join_path}
use hivekit.Regtext.Export.Reached.{IsPart}

module _ {K V : Type 0} (r : KeyReader K V) (utf16_encode : Bytes → List ℕ) where
  -- The line of a value stands in the text `body`.
  pub record HasLine (body : Bytes) (value : V) : Type 0 where
    pub meta : ValueMeta
    pub line : Bytes
    pub meta_read : r.stat_value value ≡ ok meta
    pub emitted : emit_value utf16_encode r.reader value meta ≡ ok line
    pub stands : IsPart line body

  -- The section of a key stands in a text: the line with its path, then a text in which each of its
  -- values has its line, then an empty line.
  pub record HasSection (text : Bytes) (path : List Bytes) (id : K) : Type 0 where
    pub values : List V
    pub body : Bytes
    pub values_read : r.values id ≡ ok values
    pub stands : IsPart ((b'[' ∷ join_path path ++ b']' ∷ crlf) ++ (body ++ crlf)) text
    pub lines : (value : V) → Memᴰ value values → HasLine body value
