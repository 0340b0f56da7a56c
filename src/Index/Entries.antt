-- ===== src/Index/Entries.antt =====
-- One table of the index, as long as it has no map of collisions.
use hivekit.Common.{
  ℕ, ◌*◌, ◌%◌, ◌^◌, ◌<◌, ◌≡◌, refl, sym, ap, ◌∙◌, arith, [], ◌∷◌, Option, none, some, ◌==◌,
  if◌then◌else◌,
}
use Prim.Native.Nat.{bit_xor}
use hivekit.Common.Bytes.{Bytes}
use hivekit.Index.{
  Table, overwritten, fnv_from, fnv32, fnv32_lower, to_lower_ascii, make_numeric_key, add_behind,
  add_over, or_main, remove_collision, enter_offset, get_entry, get_collision, remove_key,
}

fnv_from-lt : (s : Bytes) (h : ℕ) → h < 2 ^ 32 → fnv_from s h < 2 ^ 32
fnv_from-lt [] h small = small
fnv_from-lt (c ∷ s) h small = fnv_from-lt s (bit_xor h c * 16777619 % 2 ^ 32) (omega arith)

pub fnv32_lower-lt : (s : Bytes) → fnv32_lower s < 2 ^ 32
unfolding fnv32_lower fnv32
fnv32_lower-lt s = fnv_from-lt (to_lower_ascii s) 2166136261 (omega arith)

pub fnv32-lt : (s : Bytes) → fnv32 s < 2 ^ 32
unfolding fnv32
fnv32-lt s = fnv_from-lt s 2166136261 (omega arith)

pub key-inj :
    (p q h k : ℕ)
    → h < 2 ^ 32
    → k < 2 ^ 32
    → make_numeric_key p h ≡ make_numeric_key q k
    → (p ≡ q) × (h ≡ k)
unfolding make_numeric_key
key-inj p q h k hs ks e = (omega arith, omega arith)

-- No map of collisions.
abbrev pub Plain : Table → Type 0
Plain t = t.collisions ≡ none

add_behind-eq :
    (t : Table) (key : ℕ) (name : Bytes) (offset : ℕ) (found : Option ℕ)
    → Plain t
    → add_behind t key name offset found ≡ overwritten t key offset
add_behind-eq t key name offset none h = refl
add_behind-eq t key name offset (some old) h = ap (add_over t key name offset) h

or_main-none : (found : Option ℕ) → or_main found none ≡ found
or_main-none none = refl
or_main-none (some offset) = refl

pub get_entry-Plain :
    (t : Table) (key : ℕ) (name : Bytes) → Plain t → get_entry t key name ≡ t.entries key
unfolding get_entry
get_entry-Plain t key name h =
    ap (λ m. or_main (t.entries key) (get_collision m key name)) h ∙ or_main-none (t.entries key)

-- An entry added under one key is found there, and nothing else changes.
pub get_entry-enter_offset :
    (t : Table) (key q : ℕ) (name other : Bytes) (offset : ℕ)
    → Plain t
    → Plain (enter_offset t key name offset)
      × (get_entry (enter_offset t key name offset) q other
          ≡ (if q == key then some offset else get_entry t q other))
unfolding enter_offset
get_entry-enter_offset t key q name other offset h =
    let e = add_behind-eq t key name offset (t.entries key) h in
    (
      ap (λ r. r.collisions) e ∙ h,
      ap (λ r. get_entry r q other) e
          ∙ get_entry-Plain (overwritten t key offset) q other h
          ∙ ap (λ o. if q == key then some offset else o) (sym (get_entry-Plain t q other h)),
    )

pub get_entry-remove_key :
    (t : Table) (key q : ℕ) (name other : Bytes)
    → Plain t
    → Plain (remove_key t key name)
      × (get_entry (remove_key t key name) q other
          ≡ (if q == key then none else get_entry t q other))
unfolding remove_key
get_entry-remove_key t key q name other h =
    let plain : Plain (remove_key t key name) = ap (λ m. remove_collision m key name) h in
    (
      plain,
      get_entry-Plain (remove_key t key name) q other plain
          ∙ ap (λ o. if q == key then none else o) (sym (get_entry-Plain t q other h)),
    )
