-- ===== src/Base/Result.antt =====
-- A result or the error that is raised, in the order of Python's statements.
use mathlib.Core.Path.{◌≡◌, refl}
use mathlib.Core.Logic.{◌⊎◌, inl, inr}

pub data Raising {ℓ} (E : Type 0) (A : Type ℓ) : Type ℓ where
  ok : A → Raising E A
  err : E → Raising E A

-- To split on a result and keep the equation.
pub Result-cases {ℓ} :
    {E : Type 0} {A : Type ℓ} (r : Raising E A) → ((a : A) × (r ≡ ok a)) ⊎ ((e : E) × (r ≡ err e))
Result-cases (ok a) = inl (a, refl)
Result-cases (err e) = inr (e, refl)

abbrev pub Equates {ℓ} : (E : Type 0) {A : Type ℓ} → Raising E A → Raising E A → Type ℓ
Equates E r s = r ≡ s

pub ok-injective {ℓ} : {E : Type 0} {A : Type ℓ} {a b : A} → Equates E (ok a) (ok b) → a ≡ b
ok-injective h = cc

infixl 5 ◌>>=◌
abbrev pub ◌>>=◌ {ℓ κ} :
    {E : Type 0} {A : Type ℓ} {B : Type κ} → Raising E A → (A → Raising E B) → Raising E B
ok a >>= f = f a
err e >>= f = err e

-- A chain that succeeds has succeeded at each step.
pub bind-ok {ℓ κ} :
    {E : Type 0} {A : Type ℓ} {B : Type κ} (r : Raising E A) {f : A → Raising E B} {b : B}
    → (r >>= f) ≡ ok b
    → (a : A) × (r ≡ ok a) × (f a ≡ ok b)
bind-ok (ok a) h = (a, refl, h)
bind-ok (err e) h = cc
