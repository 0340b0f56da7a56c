-- ===== src/Index/Laws.antt =====
-- The index as a map of names: what any run of its operations leaves.
use hivekit.Common.{
  ℕ, ◌≡◌, refl, sym, ap, ap₂, ◌∙◌, arith, List, [], ◌∷◌, All, Bool, true, false, ◌&&◌, Option, none,
  some, Bool-cases, inl, inr, ◌==◌, ==_self, if◌then◌else◌,
}
use hivekit.Common.Bytes.{Bytes}
use hivekit.Format.Consts.{bytes_equal, bytes_equal_self, bytes_equal-≡}
use hivekit.Index.{
  Table, NumericIndex, new_numeric_index, fnv32, fnv32_lower, make_numeric_key, enter_offset,
  get_entry, remove_key, add_nk, add_vk, add_nk_lower, add_vk_lower, get_nk, get_vk, remove_nk,
  remove_vk,
}
use hivekit.Index.Entries.{
  fnv32_lower-lt, key-inj, Plain, get_entry-enter_offset, get_entry-remove_key,
}

-- Keys or values.
pub data Half : Type 0 where
  keys values_of_keys : Half

-- A call of the index, with the parent and the name that it is about.
pub data Action : Type 0 where
  add_name : Half → ℕ → Bytes → ℕ → Action
  drop_name : Half → ℕ → Bytes → Action

abbrev name_in : Action → Bytes
name_in (add_name half parent name offset) = name
name_in (drop_name half parent name) = name

abbrev same_half : Half → Half → Bool
same_half keys keys = true
same_half values_of_keys values_of_keys = true
same_half _ _ = false

module _ (lower : Bytes → Bytes) where
  unfoldable step : Action → NumericIndex → NumericIndex
  unfolding add_nk add_vk remove_nk remove_vk
  step (add_name keys parent name offset) n = add_nk lower n parent name offset
  step (add_name values_of_keys parent name offset) n = add_vk lower n parent name offset
  step (drop_name keys parent name) n = remove_nk lower n parent name
  step (drop_name values_of_keys parent name) n = remove_vk lower n parent name

  unfoldable pub run_actions : List Action → NumericIndex → NumericIndex
  unfolding step
  run_actions [] n = n
  run_actions (a ∷ actions) n = run_actions actions (step a n)

  pub look : Half → NumericIndex → ℕ → Bytes → Option ℕ
  unfolding get_nk get_vk
  look keys n parent name = get_nk lower n parent name
  look values_of_keys n parent name = get_vk lower n parent name

  -- The same calls on a map of names, which are equal when their lower-case forms are.
  abbrev here : Half → ℕ → Bytes → Half → ℕ → Bytes → Bool
  here half parent name g q other =
      same_half g half && (q == parent) && bytes_equal (lower other) (lower name)

  abbrev replay_one : Action → (Half → ℕ → Bytes → Option ℕ) → Half → ℕ → Bytes → Option ℕ
  replay_one (add_name half parent name offset) f g q other =
      if here half parent name g q other then some offset else f g q other
  replay_one (drop_name half parent name) f g q other =
      if here half parent name g q other then none else f g q other

  abbrev pub replay : List Action → (Half → ℕ → Bytes → Option ℕ) → Half → ℕ → Bytes → Option ℕ
  replay [] f = f
  replay (a ∷ actions) f = replay actions (replay_one a f)

  -- Names for which the two ways to hash agree and a hash stands for one name.
  module _ (IsGood : Bytes → Type 0)
      (one_hash : (name : Bytes) → IsGood name → fnv32 (lower name) ≡ fnv32_lower name)
      (apart : (x y : Bytes)
        → IsGood x
        → IsGood y
        → fnv32_lower x ≡ fnv32_lower y
        → lower x ≡ lower y) where
    key_test :
        (p q : ℕ) (name other : Bytes)
        → IsGood name
        → IsGood other
        → (make_numeric_key q (fnv32_lower other) == make_numeric_key p (fnv32_lower name))
          ≡ ((q == p) && bytes_equal (lower other) (lower name))
    key_test p q name other g h =
        elim (Bool-cases ((q == p) && bytes_equal (lower other) (lower name))) [
          | inl agree ↦
              let parents : q ≡ p = ground arith in
              let lowers : lower other ≡ lower name =
                bytes_equal-≡ (lower other) (lower name) (ground arith) in
              let hashes : fnv32_lower other ≡ fnv32_lower name =
                sym (one_hash other h) ∙ ap fnv32 lowers ∙ one_hash name g in
              ap (λ k. k == make_numeric_key p (fnv32_lower name))
                (ap₂ make_numeric_key parents hashes)
              ∙ ==_self (make_numeric_key p (fnv32_lower name))
              ∙ sym agree
          | inr distinct ↦
              elim (Bool-cases
                (make_numeric_key q (fnv32_lower other) == make_numeric_key p (fnv32_lower name))) [
                  | inr differ ↦ differ ∙ sym distinct
                  | inl equal ↦
                      let (parents, hashes) =
                        key-inj q p (fnv32_lower other) (fnv32_lower name) (fnv32_lower-lt other)
                          (fnv32_lower-lt name) (ground arith) in
                      let lowers = apart other name h g hashes in
                      let agree : bytes_equal (lower other) (lower name) ≡ true =
                        ap (λ z. bytes_equal z (lower name)) lowers
                        ∙ bytes_equal_self (lower name) in
                      absurd (ground (arith, agree, distinct, parents))
                ]
        ]

    -- The index reads as the map.
    record Reads (n : NumericIndex) (f : Half → ℕ → Bytes → Option ℕ) : Type 0 where
      plain_nodes : Plain n.nodes
      plain_values : Plain n.values
      agree_keys : (q : ℕ) (other : Bytes) → IsGood other → look keys n q other ≡ f keys q other
      agree_values :
          (q : ℕ) (other : Bytes)
          → IsGood other
          → look values_of_keys n q other ≡ f values_of_keys q other

    read_behind_add :
        (t : Table) (p q : ℕ) (name other : Bytes) (offset : ℕ)
        → Plain t
        → IsGood name
        → IsGood other
        → get_entry
            (enter_offset t (make_numeric_key p (fnv32 (lower name))) (lower name) offset)
            (make_numeric_key q (fnv32_lower other))
            (lower other)
          ≡ (if (q == p) && bytes_equal (lower other) (lower name)
              then some offset
              else get_entry t (make_numeric_key q (fnv32_lower other)) (lower other))
    read_behind_add t p q name other offset h g o =
        let key = make_numeric_key p (fnv32 (lower name)) in
        let found = make_numeric_key q (fnv32_lower other) in
        let test : (found == key) ≡ ((q == p) && bytes_equal (lower other) (lower name)) =
          ap (λ k. found == make_numeric_key p k) (one_hash name g) ∙ key_test p q name other g o in
        (get_entry-enter_offset t key found (lower name) (lower other) offset h).1
        ∙ ap (λ b. if b then some offset else get_entry t found (lower other)) test

    read_behind_remove :
        (t : Table) (p q : ℕ) (name other : Bytes)
        → Plain t
        → IsGood name
        → IsGood other
        → get_entry
            (remove_key t (make_numeric_key p (fnv32_lower name)) (lower name))
            (make_numeric_key q (fnv32_lower other))
            (lower other)
          ≡ (if (q == p) && bytes_equal (lower other) (lower name)
              then none
              else get_entry t (make_numeric_key q (fnv32_lower other)) (lower other))
    read_behind_remove t p q name other h g o =
        let key = make_numeric_key p (fnv32_lower name) in
        let found = make_numeric_key q (fnv32_lower other) in
        (get_entry-remove_key t key found (lower name) (lower other) h).1
        ∙ ap (λ b. if b then none else get_entry t found (lower other))
            (key_test p q name other g o)

    abbrev or_else : Option ℕ → Bool → Option ℕ → Option ℕ
    or_else new b old = if b then new else old

    step-Reads :
        (a : Action) (n : NumericIndex) (f : Half → ℕ → Bytes → Option ℕ)
        → IsGood (name_in a)
        → Reads n f
        → Reads (step a n) (replay_one a f)
    unfolding step look add_nk add_vk add_nk_lower add_vk_lower remove_nk remove_vk get_nk get_vk
    step-Reads (add_name keys p name offset) n f g r = record {
      plain_nodes = (get_entry-enter_offset n.nodes _ 0 (lower name) name offset r.plain_nodes).0;
      plain_values = r.plain_values;
      agree_keys = λ q other o.
          read_behind_add n.nodes p q name other offset r.plain_nodes g o
          ∙ ap (or_else (some offset) ((q == p) && bytes_equal (lower other) (lower name)))
              (r.agree_keys q other o);
      agree_values = r.agree_values;
    }
    step-Reads (add_name values_of_keys p name offset) n f g r = record {
      plain_nodes = r.plain_nodes;
      plain_values =
          (get_entry-enter_offset n.values _ 0 (lower name) name offset r.plain_values).0;
      agree_keys = r.agree_keys;
      agree_values = λ q other o.
          read_behind_add n.values p q name other offset r.plain_values g o
          ∙ ap (or_else (some offset) ((q == p) && bytes_equal (lower other) (lower name)))
              (r.agree_values q other o);
    }
    step-Reads (drop_name keys p name) n f g r = record {
      plain_nodes = (get_entry-remove_key n.nodes _ 0 (lower name) name r.plain_nodes).0;
      plain_values = r.plain_values;
      agree_keys = λ q other o.
          read_behind_remove n.nodes p q name other r.plain_nodes g o
          ∙ ap (or_else none ((q == p) && bytes_equal (lower other) (lower name)))
              (r.agree_keys q other o);
      agree_values = r.agree_values;
    }
    step-Reads (drop_name values_of_keys p name) n f g r = record {
      plain_nodes = r.plain_nodes;
      plain_values = (get_entry-remove_key n.values _ 0 (lower name) name r.plain_values).0;
      agree_keys = r.agree_keys;
      agree_values = λ q other o.
          read_behind_remove n.values p q name other r.plain_values g o
          ∙ ap (or_else none ((q == p) && bytes_equal (lower other) (lower name)))
              (r.agree_values q other o);
    }

    run_actions-Reads :
        (actions : List Action) (n : NumericIndex) (f : Half → ℕ → Bytes → Option ℕ)
        → All (λ a. IsGood (name_in a)) actions
        → Reads n f
        → Reads (run_actions actions n) (replay actions f)
    unfolding run_actions
    run_actions-Reads [] n f g r = r
    run_actions-Reads (a ∷ actions) n f (g, gs) r =
        run_actions-Reads actions (step a n) (replay_one a f) gs (step-Reads a n f g r)

    new-Reads : Reads new_numeric_index (λ half parent name. none)
    unfolding look get_nk get_vk get_entry
    new-Reads = record {
      plain_nodes = refl;
      plain_values = refl;
      agree_keys = λ q other o. refl;
      agree_values = λ q other o. refl;
    }

    -- From a new index, with any strings.ToLower: after any run of AddNK, AddVK, RemoveNK and
    -- RemoveVK a lookup of a name, of keys or of values, gives what the same calls leave in a map
    -- whose names are equal when their lower-case forms are. This is for names, given as a
    -- predicate, whose Unicode and ASCII lower-case forms have the same hash and whose hashes
    -- differ when their lower-case forms do.
    pub look-run_actions :
        (actions : List Action) (half : Half) (parent : ℕ) (name : Bytes)
        → All (λ a. IsGood (name_in a)) actions
        → IsGood name
        → look half (run_actions actions new_numeric_index) parent name
          ≡ replay actions (λ half parent name. none) half parent name
    look-run_actions actions keys parent name gs g =
        (run_actions-Reads actions new_numeric_index (λ half parent name. none) gs
            new-Reads).agree_keys
          parent name g
    look-run_actions actions values_of_keys parent name gs g =
        (run_actions-Reads actions new_numeric_index (λ half parent name. none) gs
            new-Reads).agree_values
          parent name g
