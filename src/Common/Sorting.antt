-- ===== src/Common/Sorting.antt =====
-- Go's sort.Slice, by what its documentation promises: a permutation of the elements in which none is
-- less than one in front of it. Which of equal elements comes first is left open.
use mathlib.Core.Path.{◌≡◌, refl, ap, ap₂, ◌∙◌, subst}
use native.Mathlib.Omega.{arith}
use mathlib.Core.Bool.{Bool, true, false, ◌||◌}
use mathlib.Core.List.Permᴰ
use mathlib.Core.List.{List, [], ◌∷◌, ◌++◌, Permᴰ, Memᴰ}
use mathlib.Core.Logic.{inl, inr}
use hivekit.Common.Tests.{if◌then◌else◌, Bool-cases}
use hivekit.Common.Lists.{All}

module _ {ℓ κ} {A : Type ℓ} where
  pub All-append : (P : A → Type κ) (xs ys : List A) → All P xs → All P ys → All P (xs ++ ys)
  All-append P [] ys h g = g
  All-append P (x ∷ xs) ys h g = (h.0, All-append P xs ys h.1 g)

  pub All-perm : (P : A → Type κ) {xs ys : List A} → Permᴰ xs ys → All P xs → All P ys
  All-perm P Permᴰ.nil h = h
  All-perm P (Permᴰ.cons e d) h = (subst P e h.0, All-perm P d h.1)
  All-perm P (Permᴰ.swap e₁ e₂) h = (subst P e₂ h.1.0, (subst P e₁ h.0, h.1.1))
  All-perm P (Permᴰ.trans d₁ d₂) h = All-perm P d₂ (All-perm P d₁ h)

  All-map : {P Q : A → Type κ} → ((x : A) → P x → Q x) → (xs : List A) → All P xs → All Q xs
  All-map f [] h = tt
  All-map f (x ∷ xs) h = (f x h.0, All-map f xs h.1)

  -- Every element is in the relation to all behind it.
  abbrev pub Pairwise : (A → A → Type κ) → List A → Type (ℓ ⊔ κ)
  Pairwise R [] = Unit
  Pairwise R (x ∷ xs) = All (R x) xs × Pairwise R xs

module _ {ℓ} {A : Type ℓ} where
  pub Memᴰ-perm : {a : A} {xs ys : List A} → Permᴰ xs ys → Memᴰ a xs → Memᴰ a ys
  Memᴰ-perm Permᴰ.nil m = m
  Memᴰ-perm (Permᴰ.cons e d) (Memᴰ.head h) = Memᴰ.head (h ∙ e)
  Memᴰ-perm (Permᴰ.cons e d) (Memᴰ.tail m) = Memᴰ.tail (Memᴰ-perm d m)
  Memᴰ-perm (Permᴰ.swap e₁ e₂) (Memᴰ.head h) = Memᴰ.tail (Memᴰ.head (h ∙ e₁))
  Memᴰ-perm (Permᴰ.swap e₁ e₂) (Memᴰ.tail (Memᴰ.head h)) = Memᴰ.head (h ∙ e₂)
  Memᴰ-perm (Permᴰ.swap e₁ e₂) (Memᴰ.tail (Memᴰ.tail m)) = Memᴰ.tail (Memᴰ.tail m)
  Memᴰ-perm (Permᴰ.trans d₁ d₂) m = Memᴰ-perm d₂ (Memᴰ-perm d₁ m)

  -- No element is less than one in front of it.
  abbrev pub Sorted : (A → A → Bool) → List A → Type 0
  Sorted less [] = Unit {0}
  Sorted less (x ∷ xs) = All (λ y. less y x ≡ false) xs × Sorted less xs

  -- What sort.Slice promises.
  pub record IsSorter (less : A → A → Bool) (sort : List A → List A) : Type ℓ where
    pub permutes : (xs : List A) → Permᴰ xs (sort xs)
    pub sorted : (xs : List A) → Sorted less (sort xs)

  -- One way to keep the promise, by insertion.
  abbrev insert_by : (A → A → Bool) → A → List A → List A
  insert_by less x [] = x ∷ []
  insert_by less x (y ∷ ys) = if less y x then y ∷ insert_by less x ys else x ∷ y ∷ ys

  abbrev pub sort_by : (A → A → Bool) → List A → List A
  sort_by less [] = []
  sort_by less (x ∷ xs) = insert_by less x (sort_by less xs)

  insert_by-permutes :
      (less : A → A → Bool) (x : A) (ys : List A) → Permᴰ (x ∷ ys) (insert_by less x ys)
  insert_by-permutes less x [] = Permᴰ.refl (x ∷ [])
  insert_by-permutes less x (y ∷ ys) =
      elim (less y x)
        as (λ b. Permᴰ (x ∷ y ∷ ys) (if b then y ∷ insert_by less x ys else x ∷ y ∷ ys)) [
          | true ↦
              Permᴰ.trans (Permᴰ.swap refl refl) (Permᴰ.cons refl (insert_by-permutes less x ys))
          | false ↦ Permᴰ.refl (x ∷ y ∷ ys)
        ]

  sort_by-permutes : (less : A → A → Bool) (xs : List A) → Permᴰ xs (sort_by less xs)
  sort_by-permutes less [] = Permᴰ.nil
  sort_by-permutes less (x ∷ xs) =
      Permᴰ.trans (Permᴰ.cons refl (sort_by-permutes less xs))
        (insert_by-permutes less x (sort_by less xs))

  module _ (less : A → A → Bool) (total : (x y : A) → less x y ≡ true → less y x ≡ false)
      (chain : (x y z : A) → less y x ≡ false → less z y ≡ false → less z x ≡ false) where
    insert_by-Sorted : (x : A) (ys : List A) → Sorted less ys → Sorted less (insert_by less x ys)
    insert_by-Sorted x [] h = (tt, tt)
    insert_by-Sorted x (y ∷ ys) h = elim (Bool-cases (less y x)) [
      | inl e ↦
          rw e (
            All-perm _ (insert_by-permutes less x ys) (total y x e, h.0),
            insert_by-Sorted x ys h.1,
          )
      | inr e ↦ rw e ((e, All-map (λ z. chain x y z e) ys h.0), h)
    ]

    sort_by-Sorted : (xs : List A) → Sorted less (sort_by less xs)
    sort_by-Sorted [] = tt
    sort_by-Sorted (x ∷ xs) = insert_by-Sorted x (sort_by less xs) (sort_by-Sorted xs)

    pub sort_by-IsSorter : IsSorter less (sort_by less)
    sort_by-IsSorter = record { permutes = sort_by-permutes less; sorted = sort_by-Sorted }

module _ {ℓ} {A : Type ℓ} where
  -- Some element passes the test.
  abbrev pub any : (A → Bool) → List A → Bool
  any test [] = false
  any test (x ∷ xs) = test x || any test xs

  pub any-perm : (test : A → Bool) {xs ys : List A} → Permᴰ xs ys → any test xs ≡ any test ys
  any-perm test Permᴰ.nil = refl
  any-perm test (Permᴰ.cons e d) = ap₂ (λ s t. s || t) (ap test e) (any-perm test d)
  any-perm test (Permᴰ.swap {a = a} {b = b} {l = l} e₁ e₂) =
      or_swap (test a) (test b) (any test l)
      ∙ ap₂ (λ s t. s || (t || any test l)) (ap test e₂) (ap test e₁)
    where
      or_swap : (s t u : Bool) → s || (t || u) ≡ t || (s || u)
      or_swap s t u = ground arith
  any-perm test (Permᴰ.trans d₁ d₂) = any-perm test d₁ ∙ any-perm test d₂

  pub any-append :
      (test : A → Bool) (xs ys : List A) → any test (xs ++ ys) ≡ any test xs || any test ys
  any-append test [] ys = refl
  any-append test (x ∷ xs) ys = ground (arith, any-append test xs ys)

  pub Pairwise-perm :
      (R : A → A → Type 0)
      → ((x y : A) → R x y → R y x)
      → {xs ys : List A} → Permᴰ xs ys
      → Pairwise R xs
      → Pairwise R ys
  Pairwise-perm R flip Permᴰ.nil h = h
  Pairwise-perm R flip (Permᴰ.cons {l₂ = m} e d) h =
      (subst (λ b. All (R b) m) e (All-perm _ d h.0), Pairwise-perm R flip d h.1)
  Pairwise-perm R flip (Permᴰ.swap {a = a} {b = b} {a' = a'} {b' = b'} {l = l} e₁ e₂) h =
      subst (λ c. Pairwise R (c ∷ b' ∷ l)) e₂
        (subst (λ c. Pairwise R (b ∷ c ∷ l)) e₁ ((flip a b h.0.0, h.1.0), (h.0.1, h.1.1)))
  Pairwise-perm R flip (Permᴰ.trans d₁ d₂) h = Pairwise-perm R flip d₂ (Pairwise-perm R flip d₁ h)
