-- ===== src/Merge/Names.antt =====
-- hive/merge/v2/write/subkeymerge.go: merging subkey entries by name. A name is the bytes of its
-- lower-case string, and Go compares strings by their bytes.
pub mod Order
pub mod Members
use hivekit.Common.{ℕ, List, [], ◌∷◌, Bool, true, false, not, ltb, ◌==◌, if◌then◌else◌}
use hivekit.Common.Bytes.{Bytes}

-- A subkeys.Entry.
pub record Entry : Type 0 where
  pub name_lower : Bytes
  pub nk_ref : ℕ
  pub hash : ℕ
  pub fnv32 : ℕ

-- `a < b` of strings.
unfoldable pub name_lt : Bytes → Bytes → Bool
name_lt [] [] = false
name_lt [] (y ∷ b) = true
name_lt (x ∷ a) [] = false
name_lt (x ∷ a) (y ∷ b) =
    let later = name_lt a b in if ltb x y then true else if ltb y x then false else later

-- The rounds of the loop with `o` at the head of `old`: `rest` goes on behind `o`. With `new` used
-- up it is the loop that drains `old`.
pub merge_name_at : (ℕ → Bool) → Entry → (List Entry → List Entry) → List Entry → List Entry
unfolding name_lt
merge_name_at deleted o rest [] = if deleted o.nk_ref then rest [] else o ∷ rest []
merge_name_at deleted o rest (n ∷ new) =
    let later = merge_name_at deleted o rest new in
    if deleted o.nk_ref
    then rest (n ∷ new)
    else if name_lt o.name_lower n.name_lower
    then o ∷ rest (n ∷ new)
    else if name_lt n.name_lower o.name_lower
    then n ∷ later
    else n ∷ rest new

pub merge_sorted_entries : (ℕ → Bool) → List Entry → List Entry → List Entry
unfolding merge_name_at
merge_sorted_entries deleted [] new = new
merge_sorted_entries deleted (o ∷ old) new =
    merge_name_at deleted o (merge_sorted_entries deleted old) new
