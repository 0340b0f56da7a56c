-- ===== src/Index.antt =====
-- hive/index/numeric_index.go: the index of keys and values by the number of their parent and the
-- hash of their name. A Go map is a function, and a nil map of collisions is none. `lower` is
-- strings.ToLower. The two halves of the index are one table each. Stats and the two direct map
-- assignments, AddNKHashFast and AddVKHashFast, are left out.
pub mod Entries
pub mod Laws
pub mod Collisions
use hivekit.Common.{
  ℕ, ◌+◌, ◌*◌, ◌%◌, ◌^◌, List, [], ◌∷◌, ◌++◌, map, Bool, ◌&&◌, Option, none, some, leb, ◌==◌,
  if◌then◌else◌,
}
use Prim.Native.Nat.{bit_xor}
use hivekit.Common.Bytes.{Bytes}
use hivekit.Format.Consts.{bytes_equal}

abbrev fnv_basis32 : ℕ
fnv_basis32 = 2166136261

abbrev fnv_prime32 : ℕ
fnv_prime32 = 16777619

pub record CollisionEntry : Type 0 where
  pub name : Bytes
  pub offset : ℕ

-- One of the two maps with its collisions.
pub record Table : Type 0 where
  pub entries : ℕ → Option ℕ
  pub collisions : Option (ℕ → Option (List CollisionEntry))

pub record NumericIndex : Type 0 where
  pub nodes : Table
  pub values : Table

abbrev empty_table : Table
empty_table = record { entries = λ key. none; collisions = none }

abbrev pub new_numeric_index : NumericIndex
new_numeric_index = record { nodes = empty_table; values = empty_table }

abbrev lower_ascii_byte : ℕ → ℕ
lower_ascii_byte c = if leb b'A' c && leb c b'Z' then c + 32 else c

abbrev pub to_lower_ascii : Bytes → Bytes
to_lower_ascii name = map lower_ascii_byte name

abbrev pub fnv_from : Bytes → ℕ → ℕ
fnv_from [] h = h
fnv_from (c ∷ s) h = fnv_from s (bit_xor h c * fnv_prime32 % 2 ^ 32)

unfoldable pub fnv32 : Bytes → ℕ
fnv32 s = fnv_from s fnv_basis32

-- fnv32Lower, and Fnv32LowerBytes.
unfoldable pub fnv32_lower : Bytes → ℕ
unfolding fnv32
fnv32_lower s = fnv32 (to_lower_ascii s)

-- The two halves of a uint64.
pub make_numeric_key : ℕ → ℕ → ℕ
make_numeric_key parent_off name_hash = parent_off * 2 ^ 32 + name_hash

abbrev pub set {ℓ} : {A : Type ℓ} → (ℕ → Option A) → ℕ → Option A → ℕ → Option A
set m key a q = if q == key then a else m q

-- The loops over the entries with one hash.
abbrev update_entry : List CollisionEntry → Bytes → ℕ → List CollisionEntry
update_entry [] name offset = record { name = name; offset = offset } ∷ []
update_entry (e ∷ es) name offset =
    let later = update_entry es name offset in
    if bytes_equal e.name name then record e { offset = offset } ∷ es else e ∷ later

abbrev lookup_entry : List CollisionEntry → Bytes → Option ℕ
lookup_entry [] name = none
lookup_entry (e ∷ es) name =
    let later = lookup_entry es name in if bytes_equal e.name name then some e.offset else later

abbrev remove_entry : List CollisionEntry → Bytes → List CollisionEntry
remove_entry [] name = []
remove_entry (e ∷ es) name =
    let later = remove_entry es name in if bytes_equal e.name name then es else e ∷ later

abbrev pub overwritten : Table → ℕ → ℕ → Table
overwritten t key offset = record t { entries = set t.entries key (some offset) }

-- Over an entry that is there: the list of the key's collisions, if it has one.
abbrev add_colliding :
    Table
    → ℕ
    → Bytes
    → ℕ
    → (ℕ → Option (List CollisionEntry))
    → Option (List CollisionEntry)
    → Table
add_colliding t key name_lower offset m none = overwritten t key offset
add_colliding t key name_lower offset m (some es) = record t {
  collisions = some (set m key (some (update_entry es name_lower offset)));
}

abbrev pub add_over : Table → ℕ → Bytes → ℕ → Option (ℕ → Option (List CollisionEntry)) → Table
add_over t key name_lower offset none = overwritten t key offset
add_over t key name_lower offset (some m) = add_colliding t key name_lower offset m (m key)

abbrev pub add_behind : Table → ℕ → Bytes → ℕ → Option ℕ → Table
add_behind t key name_lower offset none = overwritten t key offset
add_behind t key name_lower offset (some old) = add_over t key name_lower offset t.collisions

-- What AddNKLower, AddVKLower, AddNKHash and AddVKHash do from the key on.
pub enter_offset : Table → ℕ → Bytes → ℕ → Table
unfolding bytes_equal
enter_offset t key name_lower offset = add_behind t key name_lower offset (t.entries key)

-- getNodeCollision and getValueCollision.
abbrev lookup_list : Option (List CollisionEntry) → Bytes → Option ℕ
lookup_list none name_lower = none
lookup_list (some es) name_lower = lookup_entry es name_lower

abbrev pub get_collision : Option (ℕ → Option (List CollisionEntry)) → ℕ → Bytes → Option ℕ
get_collision none key name_lower = none
get_collision (some m) key name_lower = lookup_list (m key) name_lower

-- The entry of the name's collision, if there is one, and otherwise that of the key.
abbrev pub or_main : Option ℕ → Option ℕ → Option ℕ
or_main none collided = collided
or_main (some offset) none = some offset
or_main (some offset) (some collided) = some collided

pub get_entry : Table → ℕ → Bytes → Option ℕ
unfolding bytes_equal
get_entry t key name_lower = or_main (t.entries key) (get_collision t.collisions key name_lower)

abbrev kept_entries : List CollisionEntry → Option (List CollisionEntry)
kept_entries [] = none
kept_entries (e ∷ es) = some (e ∷ es)

abbrev without : Option (List CollisionEntry) → Bytes → Option (List CollisionEntry)
without none name_lower = none
without (some es) name_lower = kept_entries (remove_entry es name_lower)

abbrev pub remove_collision :
    Option (ℕ → Option (List CollisionEntry))
    → ℕ
    → Bytes
    → Option (ℕ → Option (List CollisionEntry))
remove_collision none key name_lower = none
remove_collision (some m) key name_lower = some (set m key (without (m key) name_lower))

pub remove_key : Table → ℕ → Bytes → Table
unfolding bytes_equal
remove_key t key name_lower = record {
  entries = set t.entries key none;
  collisions = remove_collision t.collisions key name_lower;
}

module _ (lower : Bytes → Bytes) where
  pub add_nk_lower : NumericIndex → ℕ → Bytes → ℕ → NumericIndex
  unfolding enter_offset make_numeric_key fnv32
  add_nk_lower n parent_off name_lower offset = record n {
    nodes = enter_offset n.nodes (make_numeric_key parent_off (fnv32 name_lower)) name_lower offset;
  }

  pub add_vk_lower : NumericIndex → ℕ → Bytes → ℕ → NumericIndex
  unfolding enter_offset make_numeric_key fnv32
  add_vk_lower n parent_off name_lower offset = record n {
    values =
        enter_offset n.values (make_numeric_key parent_off (fnv32 name_lower)) name_lower offset;
  }

  pub add_nk : NumericIndex → ℕ → Bytes → ℕ → NumericIndex
  unfolding add_nk_lower
  add_nk n parent_off name offset = add_nk_lower n parent_off (lower name) offset

  pub add_vk : NumericIndex → ℕ → Bytes → ℕ → NumericIndex
  unfolding add_vk_lower
  add_vk n parent_off name offset = add_vk_lower n parent_off (lower name) offset

  add_nk_hash : NumericIndex → ℕ → ℕ → Bytes → ℕ → NumericIndex
  unfolding enter_offset make_numeric_key
  add_nk_hash n parent_off hash name_bytes offset = record n {
    nodes =
        enter_offset n.nodes (make_numeric_key parent_off hash) (to_lower_ascii name_bytes) offset;
  }

  add_vk_hash : NumericIndex → ℕ → ℕ → Bytes → ℕ → NumericIndex
  unfolding enter_offset make_numeric_key
  add_vk_hash n parent_off hash name_bytes offset = record n {
    values =
        enter_offset n.values (make_numeric_key parent_off hash) (to_lower_ascii name_bytes) offset;
  }

  pub get_nk : NumericIndex → ℕ → Bytes → Option ℕ
  unfolding get_entry make_numeric_key fnv32_lower
  get_nk n parent_off name =
      get_entry n.nodes (make_numeric_key parent_off (fnv32_lower name)) (lower name)

  pub get_vk : NumericIndex → ℕ → Bytes → Option ℕ
  unfolding get_entry make_numeric_key fnv32_lower
  get_vk n parent_off name =
      get_entry n.values (make_numeric_key parent_off (fnv32_lower name)) (lower name)

  pub remove_nk : NumericIndex → ℕ → Bytes → NumericIndex
  unfolding remove_key make_numeric_key fnv32_lower
  remove_nk n parent_off name = record n {
    nodes = remove_key n.nodes (make_numeric_key parent_off (fnv32_lower name)) (lower name);
  }

  pub remove_vk : NumericIndex → ℕ → Bytes → NumericIndex
  unfolding remove_key make_numeric_key fnv32_lower
  remove_vk n parent_off name = record n {
    values = remove_key n.values (make_numeric_key parent_off (fnv32_lower name)) (lower name);
  }

-- Reset: a map of collisions that is there is emptied, and stays.
abbrev emptied :
    Option (ℕ → Option (List CollisionEntry)) → Option (ℕ → Option (List CollisionEntry))
emptied none = none
emptied (some m) = some (λ key. none)

abbrev cleared_table : Table → Table
cleared_table t = record { entries = λ key. none; collisions = emptied t.collisions }

reset_index : NumericIndex → NumericIndex
reset_index n = record { nodes = cleared_table n.nodes; values = cleared_table n.values }
