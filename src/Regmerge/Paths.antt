-- ===== src/Regmerge/Paths.antt =====
-- internal/regmerge/optimizer.go: registry paths. A string is its bytes, and a path separates its
-- segments by backslashes.
pub mod Ancestors
use hivekit.Common.{
  ℕ, zero, suc, List, [], ◌∷◌, Bool, true, false, Option, none, some, ◌&&◌, ◌||◌, length, take,
  drop, ltb, ◌==◌, if◌then◌else◌,
}
use hivekit.Common.Bytes.{Bytes}
use hivekit.Common.Text.{backslash, has_prefix}
use hivekit.Format.Consts.{bytes_equal}

abbrev pub hkey : Bytes → Bytes
hkey name = b'H' ∷ b'K' ∷ name

-- The list `prefixes`, in the order in which they are tried.
abbrev prefixes : List Bytes
prefixes =
    hkey (
      b'E' ∷ b'Y' ∷ b'_' ∷ b'L' ∷ b'O' ∷ b'C' ∷ b'A' ∷ b'L' ∷ b'_' ∷ b'M' ∷ b'A' ∷ b'C' ∷ b'H'
      ∷ b'I' ∷ b'N' ∷ b'E' ∷ backslash ∷ [])
    ∷ hkey (b'L' ∷ b'M' ∷ backslash ∷ [])
    ∷ hkey (
        b'E' ∷ b'Y' ∷ b'_' ∷ b'C' ∷ b'U' ∷ b'R' ∷ b'R' ∷ b'E' ∷ b'N' ∷ b'T' ∷ b'_' ∷ b'U' ∷ b'S'
        ∷ b'E' ∷ b'R' ∷ backslash ∷ [])
    ∷ hkey (b'C' ∷ b'U' ∷ backslash ∷ [])
    ∷ hkey (b'E' ∷ b'Y' ∷ b'_' ∷ b'U' ∷ b'S' ∷ b'E' ∷ b'R' ∷ b'S' ∷ backslash ∷ [])
    ∷ hkey (b'U' ∷ backslash ∷ [])
    ∷ hkey (
        b'E' ∷ b'Y' ∷ b'_' ∷ b'C' ∷ b'L' ∷ b'A' ∷ b'S' ∷ b'S' ∷ b'E' ∷ b'S' ∷ b'_' ∷ b'R' ∷ b'O'
        ∷ b'O' ∷ b'T' ∷ backslash ∷ [])
    ∷ hkey (b'C' ∷ b'R' ∷ backslash ∷ [])
    ∷ hkey (
        b'E' ∷ b'Y' ∷ b'_' ∷ b'C' ∷ b'U' ∷ b'R' ∷ b'R' ∷ b'E' ∷ b'N' ∷ b'T' ∷ b'_' ∷ b'C' ∷ b'O'
        ∷ b'N' ∷ b'F' ∷ b'I' ∷ b'G' ∷ backslash ∷ [])
    ∷ hkey (b'C' ∷ b'C' ∷ backslash ∷ [])
    ∷ []

-- The loop over the prefixes.
strip_prefix : Bytes → Bytes → List Bytes → Bytes
unfolding has_prefix
strip_prefix upper path [] = path
strip_prefix upper path (prefix ∷ more) =
    let rest = strip_prefix upper path more in
    if has_prefix upper prefix then drop (length prefix) path else rest

-- strings.ToUpper and strings.ToLower are the first two arguments.
unfoldable pub normalize_path : (Bytes → Bytes) → (Bytes → Bytes) → Bytes → Bytes
unfolding strip_prefix
normalize_path to_upper to_lower path = to_lower (strip_prefix (to_upper path) path prefixes)

abbrev or_first : ℕ → Option ℕ → Option ℕ
or_first c none = if c == backslash then some 0 else none
or_first c (some i) = some (suc i)

-- strings.LastIndex(path, "\\"), with none for -1.
pub last_index : Bytes → Option ℕ
last_index [] = none
last_index (c ∷ path) = or_first c (last_index path)

-- deletedPaths[path]
unfoldable pub is_deleted : Bytes → List Bytes → Bool
unfolding bytes_equal
is_deleted path [] = false
is_deleted path (d ∷ deleted) = bytes_equal d path || is_deleted path deleted

-- What a round does with the index: it stops at -1 and at 0, and else goes on with the parent.
abbrev pub at_index : (Bytes → Option Bool) → List Bytes → Bytes → Option ℕ → Option Bool
at_index later deleted path none = some false
at_index later deleted path (some zero) = some false
at_index later deleted path (some (suc i)) =
    if is_deleted (take (suc i) path) deleted then some true else later (take (suc i) path)

-- The loop over the ancestors, which gives none when it is out of fuel.
pub walk_ancestors : ℕ → List Bytes → Bytes → Option Bool
unfolding is_deleted last_index
walk_ancestors zero deleted path = none
walk_ancestors (suc fuel) deleted path =
    at_index (walk_ancestors fuel deleted) deleted path (last_index path)

abbrev is_true : Option Bool → Bool
is_true (some true) = true
is_true _ = false

unfoldable pub is_under_deleted : Bytes → List Bytes → Bool
unfolding is_deleted walk_ancestors
is_under_deleted path deleted =
    if is_deleted path deleted
    then true
    else is_true (walk_ancestors (suc (length path)) deleted path)
