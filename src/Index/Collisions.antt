-- ===== src/Index/Collisions.antt =====
-- Two names with one hash, and a name whose two lower-case forms differ.
use hivekit.Common.{
  ℕ, ◌≡◌, ◌≢◌, refl, ap, ◌∙◌, arith, true, false, none, some, Bool-cases, inl, inr, ◌==◌,
  if◌then◌else◌,
}
use hivekit.Common.Bytes.{Bytes}
use hivekit.Index.{
  Table, new_numeric_index, fnv32, fnv32_lower, make_numeric_key, enter_offset, get_entry, add_nk,
  add_nk_lower, get_nk,
}
use hivekit.Index.Entries.{
  fnv32-lt, fnv32_lower-lt, key-inj, get_entry-Plain, get_entry-enter_offset,
}

==-eq : (a b : ℕ) → a ≡ b → (a == b) ≡ true
==-eq a b h = ground arith

-- When the names of two keys under one parent have the same hash, the second key, added to a new
-- index behind the first, takes its place: a lookup of the first name gives the offset of the
-- second key.
pub collision_overwrites :
    (lower : Bytes → Bytes) (parent : ℕ) (first second : Bytes) (offset1 offset2 : ℕ)
    → fnv32_lower first ≡ fnv32 (lower second)
    → get_nk lower
        (add_nk lower (add_nk lower new_numeric_index parent first offset1) parent second offset2)
        parent
        first
      ≡ some offset2
unfolding get_nk add_nk add_nk_lower
collision_overwrites lower parent first second offset1 offset2 h =
    let key1 = make_numeric_key parent (fnv32 (lower first)) in
    let key2 = make_numeric_key parent (fnv32 (lower second)) in
    let q = make_numeric_key parent (fnv32_lower first) in
    let one =
      (get_entry-enter_offset new_numeric_index.nodes key1 0 (lower first) first offset1 refl).0 in
    let test : (q == key2) ≡ true = ==-eq q key2 (ap (make_numeric_key parent) h) in
    let t1 = enter_offset new_numeric_index.nodes key1 (lower first) offset1 in
    (get_entry-enter_offset t1 key2 q (lower second) (lower first) offset2 one).1
    ∙ ap (λ b. if b then some offset2 else get_entry t1 q (lower first)) test

-- In a new index a key whose name hashes differently in its Unicode and in its ASCII lower case is
-- not found under the very name that it was added with.
pub added_not_found :
    (lower : Bytes → Bytes) (parent : ℕ) (name : Bytes) (offset : ℕ)
    → fnv32_lower name ≢ fnv32 (lower name)
    → get_nk lower (add_nk lower new_numeric_index parent name offset) parent name ≡ none
unfolding get_nk add_nk add_nk_lower
added_not_found lower parent name offset differ =
    let key = make_numeric_key parent (fnv32 (lower name)) in
    let q = make_numeric_key parent (fnv32_lower name) in
    let empty : Table = new_numeric_index.nodes in
    let test : (q == key) ≡ false = elim (Bool-cases (q == key)) [
      | inr other ↦ other
      | inl same ↦
          let e : q ≡ key = ground arith in
          absurd (
            differ
              (key-inj parent parent (fnv32_lower name) (fnv32 (lower name)) (fnv32_lower-lt name)
                (fnv32-lt (lower name)) e).1)
    ] in
    (get_entry-enter_offset empty key q (lower name) (lower name) offset refl).1
    ∙ ap (λ b. if b then some offset else get_entry empty q (lower name)) test
    ∙ get_entry-Plain empty q (lower name) refl
