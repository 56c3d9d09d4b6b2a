-- ===== src/Base/Lists.antt =====
-- Lists measured by native numbers, membership tests, and predicates by recursion.
use Prim.Native.Nat.{ℕ, zero, suc, ◌+◌, ◌-◌, ◌≤◌}
use mathlib.Core.Path.{◌≡◌, refl}
use mathlib.Core.Logic.{◌⊎◌, inl, inr}
use mathlib.Core.Bool.{Bool, true, false, ◌||◌}
use mathlib.Core.List.{List, [], ◌∷◌, ◌++◌}
use mathlib.Core.Option.{Option, none, some}
use native.Mathlib.Omega.{arith}
use session_kit.Base.Tests.{◌==◌, Bool-cases, if◌then◌else◌}

module _ {ℓ} {A : Type ℓ} where
  abbrev pub length : List A → ℕ
  length [] = 0
  length (x ∷ xs) = suc (length xs)

  pub length-append : (xs ys : List A) → length (xs ++ ys) ≡ length xs + length ys
  length-append [] ys = omega arith
  length-append (x ∷ xs) ys = omega (arith, length-append xs ys)

  abbrev pub drop : ℕ → List A → List A
  drop zero xs = xs
  drop (suc n) [] = []
  drop (suc n) (x ∷ xs) = drop n xs

  pub length-drop : (n : ℕ) (xs : List A) → length (drop n xs) ≡ length xs - n
  length-drop zero xs = omega arith
  length-drop (suc n) [] = omega arith
  length-drop (suc n) (x ∷ xs) = omega (arith, length-drop n xs)

  -- Python's `xs[-n:]`, for a positive `n`.
  abbrev pub take_last : ℕ → List A → List A
  take_last n xs = drop (length xs - n) xs

  -- The rows that pass a test.
  abbrev pub keep_if : (A → Bool) → List A → List A
  keep_if p [] = []
  keep_if p (x ∷ xs) = let rest = keep_if p xs in if p x then x ∷ rest else rest

  abbrev pub any : (A → Bool) → List A → Bool
  any p [] = false
  any p (x ∷ xs) = p x || any p xs

  abbrev pub find? : (A → Bool) → List A → Option A
  find? p [] = none
  find? p (x ∷ xs) = let rest = find? p xs in if p x then some x else rest

  abbrev pub All {κ} : (A → Type κ) → List A → Type κ
  All P [] = Unit
  All P (x ∷ xs) = P x × All P xs

module _ {ℓ κ} {A : Type ℓ} (P : A → Type κ) where
  pub All-drop : (n : ℕ) (xs : List A) → All P xs → All P (drop n xs)
  All-drop zero xs h = h
  All-drop (suc n) [] h = h
  All-drop (suc n) (x ∷ xs) h = All-drop n xs h.1

  pub All-append : (xs ys : List A) → All P xs → All P ys → All P (xs ++ ys)
  All-append [] ys hx hy = hy
  All-append (x ∷ xs) ys hx hy = (hx.0, All-append xs ys hx.1 hy)

  pub All-keep_if : (p : A → Bool) (xs : List A) → All P xs → All P (keep_if p xs)
  All-keep_if p [] h = h
  All-keep_if p (x ∷ xs) h = ground (arith, All-keep_if p xs h.1)

  pub All-map {μ} : {Q : A → Type μ} (xs : List A) → ((x : A) → P x → Q x) → All P xs → All Q xs
  All-map [] f h = tt
  All-map (x ∷ xs) f h = (f x h.0, All-map xs f h.1)

-- Two lists of one length, related row by row.
abbrev pub Paired {ℓ κ} : {A : Type ℓ} {B : Type κ} → (A → B → Type 0) → List A → List B → Type 0
Paired R [] [] = Unit
Paired R [] (y ∷ ys) = ⊥
Paired R (x ∷ xs) [] = ⊥
Paired R (x ∷ xs) (y ∷ ys) = R x y × Paired R xs ys

-- A Python set of numbers, as the list of its elements.
abbrev pub contains : ℕ → List ℕ → Bool
contains n [] = false
contains n (x ∷ xs) = n == x || contains n xs

-- No number occurs twice.
abbrev pub IsDistinct : List ℕ → Type 0
IsDistinct [] = Unit
IsDistinct (x ∷ xs) = (contains x xs ≡ false) × IsDistinct xs

-- Some element has the property.
abbrev pub Any {ℓ} : {A : Type ℓ} → (A → Type 0) → List A → Type 0
Any P [] = ⊥
Any P (x ∷ xs) = P x ⊎ Any P xs

pub Any-map {ℓ} :
    {A : Type ℓ} {P Q : A → Type 0} (xs : List A) → ((x : A) → P x → Q x) → Any P xs → Any Q xs
Any-map [] f h = absurd h
Any-map (x ∷ xs) f (inl p) = inl (f x p)
Any-map (x ∷ xs) f (inr h) = inr (Any-map xs f h)

-- The element that has the property.
pub Any-some :
    {A : Type 0} {P : A → Type 0} (xs : List A) → Any P xs → (x : A) × Any (λ y. y ≡ x) xs × P x
Any-some [] h = absurd h
Any-some (x ∷ xs) (inl p) = (x, inl refl, p)
Any-some (x ∷ xs) (inr h) = let (y, listed, p) = Any-some xs h in (y, inr listed, p)

module _ {A : Type 0} (P : A → Type 0) where
  pub Any-append_left : (xs ys : List A) → Any P xs → Any P (xs ++ ys)
  Any-append_left [] ys h = absurd h
  Any-append_left (x ∷ xs) ys (inl p) = inl p
  Any-append_left (x ∷ xs) ys (inr h) = inr (Any-append_left xs ys h)

  pub Any-append_right : (xs ys : List A) → Any P ys → Any P (xs ++ ys)
  Any-append_right [] ys h = h
  Any-append_right (x ∷ xs) ys h = inr (Any-append_right xs ys h)

-- An element that passes the test is kept.
pub Any-keep_if :
    {A : Type 0} (p : A → Bool) (x : A) (xs : List A)
    → p x ≡ true
    → Any (λ y. y ≡ x) xs
    → Any (λ y. y ≡ x) (keep_if p xs)
Any-keep_if p x [] h a = absurd a
Any-keep_if p x (y ∷ ys) h (inl e) = rw (e, h) (inl refl)
Any-keep_if p x (y ∷ ys) h (inr a) = elim (Bool-cases (p y)) [
  | inl k ↦ rw k (inr (Any-keep_if p x ys h a))
  | inr k ↦ rw k (Any-keep_if p x ys h a)
]

pub drop-snoc {ℓ} :
    {A : Type ℓ} (n : ℕ) (xs : List A) (y : A)
    → n ≤ length xs
    → drop n (xs ++ y ∷ []) ≡ drop n xs ++ y ∷ []
drop-snoc zero xs y h = refl
drop-snoc (suc n) [] y h = absurd (omega (arith, h))
drop-snoc (suc n) (x ∷ xs) y h = drop-snoc n xs y (omega (arith, h))

-- The last element is among the last ones.
pub take_last-snoc {ℓ} :
    {A : Type ℓ} (n : ℕ) (xs : List A) (y : A)
    → (ys : List A) × (take_last (suc n) (xs ++ y ∷ []) ≡ ys ++ y ∷ [])
take_last-snoc n xs y =
    let same : length (xs ++ y ∷ []) - suc n ≡ length xs - n =
      omega (arith, length-append xs (y ∷ [])) in
    (drop (length xs - n) xs, rw same (drop-snoc (length xs - n) xs y (omega arith)))

-- Every element of a list is one of it.
pub All-self : {A : Type 0} (xs : List A) → All (λ x. Any (λ y. y ≡ x) xs) xs
All-self [] = tt
All-self (x ∷ xs) = (inl refl, All-map _ xs (λ y a. inr a) (All-self xs))

-- What a test keeps passes it.
pub All-kept {ℓ} : {A : Type ℓ} (p : A → Bool) (xs : List A) → All (λ x. p x ≡ true) (keep_if p xs)
All-kept p [] = tt
All-kept p (x ∷ xs) = elim (Bool-cases (p x)) [
  | inl e ↦ rw e (e, All-kept p xs)
  | inr e ↦ rw e (All-kept p xs)
]

-- Where no element passes a test, each fails it.
pub All-any {ℓ} :
    {A : Type ℓ} (p : A → Bool) (xs : List A) → any p xs ≡ false → All (λ x. p x ≡ false) xs
All-any p [] h = tt
All-any p (x ∷ xs) h = elim (Bool-cases (p x)) [
  | inl e ↦ absurd (ground arith)
  | inr e ↦ (e, All-any p xs (ground arith))
]

pub any-All {ℓ} :
    {A : Type ℓ} (p : A → Bool) (xs : List A) → All (λ x. p x ≡ false) xs → any p xs ≡ false
any-All p [] h = refl
any-All p (x ∷ xs) h = rw (h.0) (any-All p xs h.1)
