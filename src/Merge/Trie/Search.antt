-- ===== src/Merge/Trie/Search.antt =====
-- The children of a trie node: the order that getOrCreateChild keeps, and what a search finds.
use hivekit.Common.{
  ◌≡◌, refl, sym, ap, subst, ◌∙◌, arith, [], ◌∷◌, true, false, Option, none, some, Bool-cases, inl,
  inr, if◌then◌else◌, if-both,
}
use hivekit.Common.Bytes.{Bytes}
use hivekit.Format.Consts.{bytes_equal, bytes_equal_self, bytes_equal-≡, bytes_equal_comm}
use hivekit.Merge.Names.{name_lt}
use hivekit.Merge.Trie.{Node, node, Children, no_children, child, info, update_child}

name_lt_irrefl : (a : Bytes) → name_lt a a ≡ false
unfolding name_lt
name_lt_irrefl [] = refl
name_lt_irrefl (x ∷ a) = ground (arith, name_lt_irrefl a)

name_lt_trans : (a b c : Bytes) → name_lt a b ≡ true → name_lt b c ≡ true → name_lt a c ≡ true
unfolding name_lt
name_lt_trans [] b [] h k = ground arith
name_lt_trans [] b (z ∷ c) h k = refl
name_lt_trans (x ∷ a) [] c h k = cc
name_lt_trans (x ∷ a) (y ∷ b) [] h k = cc
name_lt_trans (x ∷ a) (y ∷ b) (z ∷ c) h k = ground (arith, name_lt_trans a b c)

name_lt_total : (a b : Bytes) → name_lt a b ≡ false → name_lt b a ≡ false → bytes_equal a b ≡ true
unfolding name_lt bytes_equal
name_lt_total [] [] h k = refl
name_lt_total [] (y ∷ b) h k = cc
name_lt_total (x ∷ a) [] h k = cc
name_lt_total (x ∷ a) (y ∷ b) h k = ground (arith, name_lt_total a b)

name_lt-apart : (a b : Bytes) → name_lt a b ≡ true → bytes_equal a b ≡ false
unfolding name_lt bytes_equal
name_lt-apart [] [] h = cc
name_lt-apart [] (y ∷ b) h = refl
name_lt-apart (x ∷ a) [] h = refl
name_lt-apart (x ∷ a) (y ∷ b) h = ground (arith, name_lt-apart a b)

abbrev pub key_of : Node → Bytes
key_of n = (info n).name_lower

-- All names are behind `key`, and each in front of the next ones: so no two are equal.
abbrev Above : Bytes → Children → Type 0
Above key no_children = Unit {0}
Above key (child n ns) = (name_lt key (key_of n) ≡ true) × Above key ns

unfoldable mutual
  pub IsTrie : Node → Type 0
  IsTrie (node i cs) = IsSortedTries cs

  pub IsSortedTries : Children → Type 0
  IsSortedTries no_children = Unit {0}
  IsSortedTries (child n ns) = IsTrie n × Above (key_of n) ns × IsSortedTries ns

abbrev pub find_child : Bytes → Children → Option Node
find_child key no_children = none
find_child key (child n ns) =
    let later = find_child key ns in if bytes_equal (key_of n) key then some n else later

abbrev pub or_fresh : Option Node → Node → Node
or_fresh none fresh = fresh
or_fresh (some n) fresh = n

Above-trans : (a b : Bytes) (ns : Children) → name_lt a b ≡ true → Above b ns → Above a ns
Above-trans a b no_children h k = tt
Above-trans a b (child n ns) h (k, rest) =
    (name_lt_trans a b (key_of n) h k, Above-trans a b ns h rest)

-- Behind every name of a list nothing of it is found.
find_child-Above :
    (key q : Bytes) (ns : Children)
    → Above key ns
    → bytes_equal key q ≡ true
    → find_child q ns ≡ none
find_child-Above key q no_children h e = refl
find_child-Above key q (child n ns) (h, rest) e =
    let same : key ≡ q = bytes_equal-≡ key q e in
    let lt : name_lt q (key_of n) ≡ true = subst (λ k. name_lt k (key_of n) ≡ true) same h in
    let apart : bytes_equal (key_of n) q ≡ false =
      bytes_equal_comm (key_of n) q ∙ name_lt-apart q (key_of n) lt in
    rw apart (find_child-Above key q ns rest e)

module _ (key : Bytes) (fresh : Node) (f : Node → Node) (fresh_key : key_of fresh ≡ key)
    (keeps_key : (n : Node) → key_of (f n) ≡ key_of n) where
  -- The search in the updated children: the child at `key`, found or fresh, is the updated one, and
  -- the others are as they were.
  pub find_child-update_child :
      (q : Bytes) (ns : Children)
      → IsSortedTries ns
      → find_child q (update_child key fresh f ns) ≡ (
          if bytes_equal key q
          then some (f (or_fresh (find_child key ns) fresh))
          else find_child q ns)
  unfolding update_child IsSortedTries
  find_child-update_child q no_children h =
      let k : key_of (f fresh) ≡ key = keeps_key fresh ∙ fresh_key in rw k refl
  find_child-update_child q (child n ns) (t, above, h) =
      let k : key_of (f fresh) ≡ key = keeps_key fresh ∙ fresh_key in
      let kn : key_of (f n) ≡ key_of n = keeps_key n in
      elim (Bool-cases (name_lt (key_of n) key)) [
        | inl before ↦
            let apart : bytes_equal (key_of n) key ≡ false = name_lt-apart (key_of n) key before in
            let ih = find_child-update_child q ns h in
            let exclusive : bytes_equal key q ≡ true → bytes_equal (key_of n) q ≡ false =
              λ e. subst (λ z. bytes_equal (key_of n) z ≡ false) (bytes_equal-≡ key q e) apart in
            ground (arith, before, apart, ih, exclusive)
        | inr nb ↦ elim (Bool-cases (name_lt key (key_of n))) [
          | inl behind ↦
              let apart : bytes_equal (key_of n) key ≡ false =
                bytes_equal_comm (key_of n) key ∙ name_lt-apart key (key_of n) behind in
              let gone : find_child key ns ≡ none =
                find_child-Above key key ns (Above-trans key (key_of n) ns behind above)
                  (bytes_equal_self key) in
              rw (nb, behind, k, apart, gone) refl
          | inr na ↦
              let here : bytes_equal (key_of n) key ≡ true = name_lt_total (key_of n) key nb na in
              let same : bytes_equal (key_of n) q ≡ bytes_equal key q =
                ap (λ z. bytes_equal z q) (bytes_equal-≡ (key_of n) key here) in
              rw (nb, na, kn, here, same) (ground arith)
        ]
      ]

  Above-update_child :
      (a : Bytes) (ns : Children)
      → Above a ns
      → name_lt a key ≡ true
      → Above a (update_child key fresh f ns)
  unfolding update_child
  Above-update_child a no_children h lt =
      (subst (λ z. name_lt a z ≡ true) (sym (keeps_key fresh ∙ fresh_key)) lt, tt)
  Above-update_child a (child n ns) (h, above) lt =
      if-both (Above a) (name_lt (key_of n) key) (λ e. (h, Above-update_child a ns above lt))
        (λ e.
          if-both (Above a) (name_lt key (key_of n))
            (λ e'.
              (subst (λ z. name_lt a z ≡ true) (sym (keeps_key fresh ∙ fresh_key)) lt, (h, above)))
            (λ e'. (subst (λ z. name_lt a z ≡ true) (sym (keeps_key n)) h, above)))

  -- The order of the children stays.
  pub update_child-IsSortedTries :
      (ns : Children)
      → IsTrie (f fresh)
      → ((n : Node) → IsTrie n → IsTrie (f n))
      → IsSortedTries ns
      → IsSortedTries (update_child key fresh f ns)
  unfolding update_child IsSortedTries
  update_child-IsSortedTries no_children new keeps h = (new, tt, tt)
  update_child-IsSortedTries (child n ns) new keeps (t, above, h) =
      if-both IsSortedTries (name_lt (key_of n) key)
        (λ e.
          (t, Above-update_child (key_of n) ns above e, update_child-IsSortedTries ns new keeps h))
        (λ e.
          if-both IsSortedTries (name_lt key (key_of n))
            (λ e'. (
              new,
              subst (λ z. Above z (child n ns)) (sym (keeps_key fresh ∙ fresh_key))
                  (e', Above-trans key (key_of n) ns e' above),
              (t, above, h),
            ))
            (λ e'. (keeps n t, subst (λ z. Above z ns) (sym (keeps_key n)) above, h)))
