-- ===== src/Common/Text.antt =====
-- Strings as their bytes.
use Prim.Native.Nat.{ℕ}
use Prim.Native.Char.{code}
use Prim.Native.String.{String}
use mathlib.Core.Bool.{Bool, true, false, ◌&&◌}
use mathlib.Core.List.{[], ◌∷◌}
use hivekit.Common.Tests.{◌==◌}
use hivekit.Common.Bytes.{Bytes}

-- The bytes of an ASCII literal.
abbrev pub codes : String → Bytes
codes String.[] = []
codes (String.◌∷◌ c s) = code c ∷ codes s

abbrev pub backslash : ℕ
backslash = b'\\'

-- strings.HasPrefix and bytes.HasPrefix
unfoldable pub has_prefix : Bytes → Bytes → Bool
has_prefix s [] = true
has_prefix [] (y ∷ ys) = false
has_prefix (x ∷ xs) (y ∷ ys) = (x == y) && has_prefix xs ys
