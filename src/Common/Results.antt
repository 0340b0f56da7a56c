-- ===== src/Common/Results.antt =====
-- What a Go call comes to: a value, an error value, or a run-time panic.
use mathlib.Core.Path.{◌≡◌, refl}
use mathlib.Core.Bool.{Bool, true, false}
use mathlib.Core.Option.{Option, some}

pub data Outcome {ℓ} (E : Type ℓ) (A : Type ℓ) : Type ℓ where
  ok : A → Outcome E A
  err : E → Outcome E A
  panic : Outcome E A

-- `next` is what follows the error test behind a call.
infixl 5 ◌>>=◌ ◌>>◌
abbrev pub ◌>>=◌ {ℓ} : {E A B : Type ℓ} → Outcome E A → (A → Outcome E B) → Outcome E B
panic >>= next = panic
err problem >>= next = err problem
ok value >>= next = next value

abbrev pub ◌>>◌ {ℓ} : {E : Type ℓ} {B : Type ℓ} → Outcome E (Unit {ℓ}) → Outcome E B → Outcome E B
test >> next = test >>= λ passed. next

-- `if bad { return err }`
abbrev pub refuse {ℓ} : {E : Type ℓ} → Bool → E → Outcome E (Unit {ℓ})
refuse true e = err e
refuse false e = ok tt

pub refuse-passes {ℓ} :
    {E B : Type ℓ} (bad : Bool) (e : E) (next : Outcome E B)
    → bad ≡ false
    → (refuse bad e >> next) ≡ next
refuse-passes true e next h = cc
refuse-passes false e next h = refl

pub refuse-ok {ℓ} :
    {E B : Type ℓ} (bad : Bool) (e : E) (next : Outcome E B) (r : B)
    → (refuse bad e >> next) ≡ ok r
    → (bad ≡ false) × (next ≡ ok r)
refuse-ok true e next r h = cc
refuse-ok false e next r h = (refl, h)

-- What a chain of two calls that returns came from.
pub bind-ok {ℓ} :
    {E A B : Type ℓ} (o : Outcome E A) (next : A → Outcome E B) (r : B)
    → (o >>= next) ≡ ok r
    → (a : A) × (o ≡ ok a) × (next a ≡ ok r)
bind-ok panic next r h = cc
bind-ok (err e) next r h = cc
bind-ok (ok a) next r h = (a, refl, h)

pub ok-inj {ℓ} : {E A : Type ℓ} (a b : A) → ◌≡◌ {A = Outcome E A} (ok a) (ok b) → a ≡ b
ok-inj a b h = cc

pub some_ok-inj {ℓ} :
    {E A : Type ℓ} (a b : A) → ◌≡◌ {A = Option (Outcome E A)} (some (ok a)) (some (ok b)) → a ≡ b
some_ok-inj a b h = cc

pub some-inj {ℓ} : {A : Type ℓ} (a b : A) → ◌≡◌ {A = Option A} (some a) (some b) → a ≡ b
some-inj a b h = cc
