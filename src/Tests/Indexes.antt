-- ===== src/Tests/Indexes.antt =====
-- The numeric index at concrete names.
use hivekit.Common.{
  ◌≡◌, ◌≢◌, refl, sym, ap, ◌∙◌, arith, List, [], ◌∷◌, map, none, some, ◌⊎◌, inl, inr, ◌==◌,
  if◌then◌else◌,
}
use hivekit.Common.Bytes.{Bytes}
use hivekit.Index.{fnv32, fnv32_lower, to_lower_ascii, new_numeric_index, get_nk, add_nk}
use hivekit.Index.Laws.{
  keys, Action, add_name, drop_name, run_actions, look, replay, look-run_actions,
}
use hivekit.Index.Collisions.{collision_overwrites, added_not_found}

abbrev name_a : Bytes
name_a = b'A' ∷ []

abbrev name_b : Bytes
name_b = b'b' ∷ []

abbrev IsOneOfTwo : Bytes → Type 0
IsOneOfTwo name = (name ≡ name_a) ⊎ (name ≡ name_b)

hash_a : fnv32_lower name_a ≡ 3826002220
unfolding fnv32_lower fnv32
hash_a = refl

hash_b : fnv32_lower name_b ≡ 3876335077
unfolding fnv32_lower fnv32
hash_b = refl

one_hash : (name : Bytes) → IsOneOfTwo name → fnv32 (to_lower_ascii name) ≡ fnv32_lower name
unfolding fnv32_lower
one_hash name h = refl

apart :
    (x y : Bytes)
    → IsOneOfTwo x
    → IsOneOfTwo y
    → fnv32_lower x ≡ fnv32_lower y
    → to_lower_ascii x ≡ to_lower_ascii y
apart x y (inl e) (inl d) h = ap to_lower_ascii (e ∙ sym d)
apart x y (inr e) (inr d) h = ap to_lower_ascii (e ∙ sym d)
apart x y (inl e) (inr d) h =
    let l : fnv32_lower name_a ≡ fnv32_lower name_b =
      ap fnv32_lower (sym e) ∙ h ∙ ap fnv32_lower d in
    absurd (omega (arith, l, hash_a, hash_b))
apart x y (inr e) (inl d) h =
    let l : fnv32_lower name_b ≡ fnv32_lower name_a =
      ap fnv32_lower (sym e) ∙ h ∙ ap fnv32_lower d in
    absurd (omega (arith, l, hash_a, hash_b))

abbrev three_actions : List Action
three_actions =
    add_name keys 32 name_a 160 ∷ add_name keys 32 name_b 320 ∷ drop_name keys 32 name_a ∷ []

look-run_actions_example :
    look to_lower_ascii keys (run_actions to_lower_ascii three_actions new_numeric_index) 32 name_b
    ≡ replay to_lower_ascii three_actions (λ half parent name. none) keys 32 name_b
look-run_actions_example =
    look-run_actions to_lower_ascii IsOneOfTwo one_hash apart three_actions keys 32 name_b
      (inl refl, (inr refl, (inl refl, tt))) (inr refl)

abbrev liquid : Bytes
liquid = b'l' ∷ b'i' ∷ b'q' ∷ b'u' ∷ b'i' ∷ b'd' ∷ []

abbrev costarring : Bytes
costarring = b'c' ∷ b'o' ∷ b's' ∷ b't' ∷ b'a' ∷ b'r' ∷ b'r' ∷ b'i' ∷ b'n' ∷ b'g' ∷ []

two_words : fnv32_lower liquid ≡ fnv32 (to_lower_ascii costarring)
unfolding fnv32_lower fnv32
two_words = refl

collision_overwrites_example :
    get_nk to_lower_ascii
      (add_nk to_lower_ascii
        (add_nk to_lower_ascii new_numeric_index 32 liquid 160)
        32
        costarring
        320)
      32
      liquid
    ≡ some 320
collision_overwrites_example =
    collision_overwrites to_lower_ascii 32 liquid costarring 160 320 two_words

-- The letter E with an acute accent, in UTF-8, and its lower case.
abbrev accented : Bytes
accented = 0xC3 ∷ 0x89 ∷ []

abbrev lower_accent : Bytes → Bytes
lower_accent name = map (λ b. if b == 0x89 then 0xA9 else b) name

accents_differ : fnv32_lower accented ≢ fnv32 (lower_accent accented)
unfolding fnv32_lower fnv32
accents_differ h = omega (arith, h)

added_not_found_example :
    get_nk lower_accent (add_nk lower_accent new_numeric_index 32 accented 160) 32 accented ≡ none
added_not_found_example = added_not_found lower_accent 32 accented 160 accents_differ
