-- ===== src/Base/Sort.antt =====
-- Python's `sorted`, a stable sort, on a test of what comes strictly before what.
use mathlib.Core.Path.{◌≡◌, refl, ap, ◌∙◌}
use mathlib.Core.Logic.{inl, inr}
use mathlib.Core.Bool.{Bool, true, false}
use mathlib.Core.List.{List, [], ◌∷◌}
use native.Mathlib.Omega.{arith}
use Prim.Native.Nat.{ℕ, suc}
use session_kit.Base.Tests.{Bool-cases, if◌then◌else◌}
use session_kit.Base.Lists.{All, All-map, Any, keep_if}

-- How many elements pass a test.
abbrev pub tally {ℓ} : {A : Type ℓ} → (A → Bool) → List A → ℕ
tally q [] = 0
tally q (x ∷ xs) = if q x then suc (tally q xs) else tally q xs

-- Each element stands in the relation to those after it.
abbrev pub IsSorted {ℓ} : {A : Type ℓ} → (A → A → Type 0) → List A → Type 0
IsSorted R [] = Unit
IsSorted R (x ∷ xs) = All (R x) xs × IsSorted R xs

-- What is not below the first of the rest stays before it.
module _ {ℓ} {A : Type ℓ} (below : A → A → Bool) where
  unfoldable pub place_in : A → List A → List A
  place_in x [] = x ∷ []
  place_in x (y ∷ ys) = let rest = place_in x ys in if below y x then y ∷ rest else x ∷ y ∷ ys

  unfoldable pub sort_by : List A → List A
  sort_by [] = []
  sort_by (x ∷ xs) = place_in x (sort_by xs)

module _ {ℓ κ} {A : Type ℓ} (below : A → A → Bool) (P : A → Type κ) where
  All-place_in : (x : A) (xs : List A) → P x → All P xs → All P (place_in below x xs)
  unfolding place_in
  All-place_in x [] p h = (p, tt)
  All-place_in x (y ∷ ys) p h = elim (Bool-cases (below y x)) [
    | inl e ↦ rw e (h.0, All-place_in x ys p h.1)
    | inr e ↦ rw e (p, h)
  ]

  pub All-sort_by : (xs : List A) → All P xs → All P (sort_by below xs)
  unfolding sort_by
  All-sort_by [] h = tt
  All-sort_by (x ∷ xs) h = All-place_in x (sort_by below xs) h.0 (All-sort_by xs h.1)

module _ {A : Type 0} (below : A → A → Bool) (P : A → Type 0) where
  swapped :
      (x y : A) (ys zs : List A) → (Any P (x ∷ ys) → Any P zs) → Any P (x ∷ y ∷ ys) → Any P (y ∷ zs)
  swapped x y ys zs into (inl p) = inr (into (inl p))
  swapped x y ys zs into (inr (inl p)) = inl p
  swapped x y ys zs into (inr (inr p)) = inr (into (inr p))

  Any-place_in : (x : A) (xs : List A) → Any P (x ∷ xs) → Any P (place_in below x xs)
  unfolding place_in
  Any-place_in x [] h = h
  Any-place_in x (y ∷ ys) h = elim (Bool-cases (below y x)) [
    | inr e ↦ rw e h
    | inl e ↦ rw e (swapped x y ys (place_in below x ys) (Any-place_in x ys) h)
  ]

  pub Any-sort_by : (xs : List A) → Any P xs → Any P (sort_by below xs)
  unfolding sort_by
  Any-sort_by [] h = h
  Any-sort_by (x ∷ xs) (inl p) = Any-place_in x (sort_by below xs) (inl p)
  Any-sort_by (x ∷ xs) (inr h) = Any-place_in x (sort_by below xs) (inr (Any-sort_by xs h))

module _ {A : Type 0} (below : A → A → Bool) (q : A → Bool) where
  tally-place_in : (x : A) (xs : List A) → tally q (place_in below x xs) ≡ tally q (x ∷ xs)
  unfolding place_in
  tally-place_in x [] = refl
  tally-place_in x (y ∷ ys) = elim (Bool-cases (below y x)) [
    | inl e ↦ rw e (ground (arith, tally-place_in x ys))
    | inr e ↦ rw e refl
  ]

  pub tally-sort_by : (xs : List A) → tally q (sort_by below xs) ≡ tally q xs
  unfolding sort_by
  tally-sort_by [] = refl
  tally-sort_by (x ∷ xs) = ground (arith, tally-place_in x (sort_by below xs), tally-sort_by xs)

-- The test decides a transitive relation.
module _ {A : Type 0} (R : A → A → Type 0) (below : A → A → Bool)
    (holds : (x y : A) → below x y ≡ true → R x y) (fails : (x y : A) → below x y ≡ false → R y x)
    (chain : (x y z : A) → R x y → R y z → R x z) where
  place_in-IsSorted : (x : A) (xs : List A) → IsSorted R xs → IsSorted R (place_in below x xs)
  unfolding place_in
  place_in-IsSorted x [] h = (tt, tt)
  place_in-IsSorted x (y ∷ ys) h = elim (Bool-cases (below y x)) [
    | inl e ↦
        rw (e, IsSorted)
          (All-place_in below (R y) x ys (holds y x e) h.0, place_in-IsSorted x ys h.1)
    | inr e ↦
        let first : R x y = fails y x e in
        rw (e, IsSorted) ((first, All-map _ ys (λ z k. chain x y z first k) h.0), h)
  ]

  pub sort_by-IsSorted : (xs : List A) → IsSorted R (sort_by below xs)
  unfolding sort_by
  sort_by-IsSorted [] = tt
  sort_by-IsSorted (x ∷ xs) = place_in-IsSorted x (sort_by below xs) (sort_by-IsSorted xs)

-- A symmetric relation between any two elements does not depend on their order.
module _ {A : Type 0} (R : A → A → Type 0) (below : A → A → Bool)
    (swap : (x y : A) → R x y → R y x) where
  place_in-IsPairwise :
      (x : A) (xs : List A) → IsSorted R (x ∷ xs) → IsSorted R (place_in below x xs)
  unfolding place_in
  place_in-IsPairwise x [] h = h
  place_in-IsPairwise x (y ∷ ys) h = elim (Bool-cases (below y x)) [
    | inl e ↦
        rw (e, IsSorted)
          (
            All-place_in below (R y) x ys (swap x y h.0.0) h.1.0,
            place_in-IsPairwise x ys (h.0.1, h.1.1),
          )
    | inr e ↦ rw (e, IsSorted) h
  ]

  pub sort_by-IsPairwise : (xs : List A) → IsSorted R xs → IsSorted R (sort_by below xs)
  unfolding sort_by
  sort_by-IsPairwise [] h = tt
  sort_by-IsPairwise (x ∷ xs) h =
      place_in-IsPairwise x (sort_by below xs)
        (All-sort_by below (R x) xs h.0, sort_by-IsPairwise xs h.1)

pub IsSorted-map {ℓ} :
    {A : Type ℓ} {R S : A → A → Type 0} (xs : List A)
    → ((x y : A) → R x y → S x y)
    → IsSorted R xs
    → IsSorted S xs
IsSorted-map [] f h = tt
IsSorted-map (x ∷ xs) f h = (All-map _ xs (f x) h.0, IsSorted-map xs f h.1)

-- Elements of which none stands strictly before another keep their order.
module _ {A : Type 0} (below : A → A → Bool) (q : A → Bool)
    (level : (x y : A) → q x ≡ true → q y ≡ true → below x y ≡ false) where
  keep_if-place_in : (x : A) (xs : List A) → keep_if q (place_in below x xs) ≡ keep_if q (x ∷ xs)
  unfolding place_in
  keep_if-place_in x [] = refl
  keep_if-place_in x (y ∷ ys) = elim (Bool-cases (below y x)) [
    | inr e ↦ rw e refl
    | inl e ↦ elim (Bool-cases (q y)) [
      | inr g ↦ rw (e, g, keep_if-place_in x ys) refl
      | inl g ↦ elim (Bool-cases (q x)) [
        | inl f ↦ let no_y = level y x g f in absurd (ground arith)
        | inr f ↦ rw (e, g, keep_if-place_in x ys, f) refl
      ]
    ]
  ]

  pub keep_if-sort_by : (xs : List A) → keep_if q (sort_by below xs) ≡ keep_if q xs
  unfolding sort_by
  keep_if-sort_by [] = refl
  keep_if-sort_by (x ∷ xs) =
      keep_if-place_in x (sort_by below xs)
      ∙ ap (λ l. if q x then x ∷ l else l) (keep_if-sort_by xs)
