-- ===== src/Base/Tests.antt =====
-- Boolean tests on the native numbers, the conditional, and Python's `all` and `any` over tests.
use Prim.Native.Nat.{ℕ, ◌≤◌, ◌<◌, compare, Ordering}
use mathlib.Core.Path.{◌≡◌, refl}
use mathlib.Core.Logic.{◌↔◌, ◌⊎◌, inl, inr}
use mathlib.Core.Bool.{Bool, true, false, ◌&&◌, ◌||◌}
use mathlib.Core.List.{List, [], ◌∷◌}
use mathlib.Core.Option.{Option, none, some}
use native.Mathlib.Omega.{arith}

abbrev pub ltb : ℕ → ℕ → Bool
ltb a b = elim (compare a b) [ Ordering.lt ↦ true | _ ↦ false ]

abbrev pub leb : ℕ → ℕ → Bool
leb a b = elim (compare a b) [ Ordering.gt ↦ false | _ ↦ true ]

infix 50 ◌==◌
abbrev pub ◌==◌ : ℕ → ℕ → Bool
a == b = elim (compare a b) [ Ordering.eq ↦ true | _ ↦ false ]

infix 1 if◌then◌else◌
abbrev pub if◌then◌else◌ {ℓ} : {A : Type ℓ} → Bool → A → A → A
if true then x else _ = x
if false then _ else y = y

pub ltb→lt : (a b : ℕ) → ltb a b ≡ true → a < b
ltb→lt a b h = ground arith

pub ltb→ge : (a b : ℕ) → ltb a b ≡ false → b ≤ a
ltb→ge a b h = ground arith

pub leb→le : (a b : ℕ) → leb a b ≡ true → a ≤ b
leb→le a b h = ground arith

pub le→leb : (a b : ℕ) → a ≤ b → leb a b ≡ true
le→leb a b h = ground arith

pub ==_iff : (a b : ℕ) → ((a == b) ≡ true) ↔ (a ≡ b)
==_iff a b = ground arith

pub Bool-cases : (b : Bool) → (b ≡ true) ⊎ (b ≡ false)
Bool-cases true = inl refl
Bool-cases false = inr refl

pub Option-cases {ℓ} : {A : Type ℓ} (o : Option A) → (o ≡ none) ⊎ ((a : A) × (o ≡ some a))
Option-cases none = inl refl
Option-cases (some a) = inr (a, refl)

pub none_no_some {ℓ} : {A : Type ℓ} {a : A} → none ≡ some a → ⊥
none_no_some h = cc

pub some-injective {ℓ} : {A : Type ℓ} {a b : A} → some a ≡ some b → a ≡ b
some-injective h = cc

-- Two tests that hold, and each of them.
pub both_hold : {a b : Bool} → a ≡ true → b ≡ true → (a && b) ≡ true
both_hold h k = ground arith

pub first_holds : {a : Bool} (b : Bool) → (a && b) ≡ true → a ≡ true
first_holds b h = ground arith

pub second_holds : (a : Bool) {b : Bool} → (a && b) ≡ true → b ≡ true
second_holds a h = ground arith

-- A long conjunction or disjunction of tests, as the source writes them, one to a line.
abbrev pub all_of : List Bool → Bool
all_of [] = true
all_of (b ∷ bs) = b && all_of bs

abbrev pub any_of : List Bool → Bool
any_of [] = false
any_of (b ∷ bs) = b || any_of bs

-- Every test holds; no test holds. They compute to tuples.
abbrev pub Each : Bool → List Bool → Type 0
Each v [] = Unit
Each v (b ∷ bs) = (b ≡ v) × Each v bs

pub all_of-Each : (bs : List Bool) → all_of bs ≡ true → Each true bs
all_of-Each [] h = tt
all_of-Each (true ∷ bs) h = (refl, all_of-Each bs h)
all_of-Each (false ∷ bs) h = cc

pub any_of-Each : (bs : List Bool) → any_of bs ≡ false → Each false bs
any_of-Each [] h = tt
any_of-Each (true ∷ bs) h = cc
any_of-Each (false ∷ bs) h = (refl, any_of-Each bs h)
