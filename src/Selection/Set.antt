-- ===== src/Selection/Set.antt =====
-- The ascending lists that `Grammar` uses for Python's sets of numbers.
use session_kit.Base.{
  ℕ, zero, suc, ◌+◌, ◌<◌, ◌≤◌, ◌≡◌, refl, inl, inr, true, false, ◌||◌, ◌&&◌, List, [], ◌∷◌, ltb,
  leb, ◌==◌, sym, ap, subst, ◌∙◌, All, All-map, contains, Bool-cases, arith,
}
use session_kit.Selection.Grammar.{add, add_range}

-- Each number is below those after it.
abbrev pub IsAscending : List ℕ → Type 0
IsAscending [] = Unit
IsAscending (x ∷ xs) = All (λ y. x < y) xs × IsAscending xs

pub All-add {ℓ} : (P : ℕ → Type ℓ) (n : ℕ) (xs : List ℕ) → P n → All P xs → All P (add n xs)
unfolding add
All-add P n [] p h = (p, tt)
All-add P n (x ∷ xs) p h = ground (arith, All-add P n xs p h.1)

below-All : (n x : ℕ) (xs : List ℕ) → n < x → All (λ y. x < y) xs → All (λ y. n < y) xs
below-All n x xs lt h = All-map _ xs (λ y l. omega arith) h

add-IsAscending : (n : ℕ) (xs : List ℕ) → IsAscending xs → IsAscending (add n xs)
unfolding add
add-IsAscending n [] h = (tt, tt)
add-IsAscending n (x ∷ xs) h =
    ground (arith, add-IsAscending n xs h.1, All-add (λ y. x < y) n xs, below-All n x xs)

pub contains-add : (m n : ℕ) (xs : List ℕ) → contains m (add n xs) ≡ (m == n || contains m xs)
unfolding add
contains-add m n [] = refl
contains-add m n (x ∷ xs) = ground (arith, contains-add m n xs)

pub add_range-IsAscending :
    (low width : ℕ) (xs : List ℕ) → IsAscending xs → IsAscending (add_range low width xs)
unfolding add_range
add_range-IsAscending low zero xs h = h
add_range-IsAscending low (suc w) xs h =
    add_range-IsAscending (suc low) w (add low xs) (add-IsAscending low xs h)

pub contains-add_range :
    (m low width : ℕ) (xs : List ℕ)
    → contains m (add_range low width xs) ≡ ((leb low m && ltb m (low + width)) || contains m xs)
unfolding add_range
contains-add_range m low zero xs = ground arith
contains-add_range m low (suc w) xs =
    ground (arith, contains-add_range m (suc low) w (add low xs), contains-add m low xs)

pub contains-All {ℓ} :
    (P : ℕ → Type ℓ) (m : ℕ) (xs : List ℕ) → All P xs → contains m xs ≡ true → P m
contains-All P m [] h c = absurd (ground arith)
contains-All P m (x ∷ xs) h c = elim (Bool-cases (m == x)) [
  | inl e ↦ let same : x ≡ m = ground arith in subst P same h.0
  | inr e ↦ contains-All P m xs h.1 (ground arith)
]

-- Nothing is before the least.
least : (x y : ℕ) (ys : List ℕ) → All (λ z. y < z) ys → contains x (y ∷ ys) ≡ true → y ≤ x
least x y ys h c = elim (Bool-cases (x == y)) [
  | inl e ↦ ground arith
  | inr e ↦
      let later : y < x = contains-All (λ z. y < z) x ys h (ground arith) in omega (arith, later)
]

absent : (x : ℕ) (xs : List ℕ) → All (λ z. x < z) xs → contains x xs ≡ false
absent x xs h = elim (Bool-cases (contains x xs)) [
  | inl e ↦ let lt : x < x = contains-All (λ z. x < z) x xs h e in absurd (omega (arith, lt))
  | inr e ↦ e
]

contains-head : (x : ℕ) (xs : List ℕ) → contains x (x ∷ xs) ≡ true
contains-head x xs = ground arith

tail_same :
    (x : ℕ) (xs ys : List ℕ)
    → IsAscending (x ∷ xs)
    → IsAscending (x ∷ ys)
    → ((m : ℕ) → contains m (x ∷ xs) ≡ contains m (x ∷ ys))
    → (m : ℕ) → contains m xs ≡ contains m ys
tail_same x xs ys h k e m = elim (Bool-cases (m == x)) [
  | inl eq ↦
      let same : x ≡ m = ground arith in
      subst (λ z. contains z xs ≡ contains z ys) same (absent x xs h.0 ∙ sym (absent x ys k.0))
  | inr ne ↦ let both : contains m (x ∷ xs) ≡ contains m (x ∷ ys) = e m in ground arith
]

pub All-contains {ℓ} :
    (P : ℕ → Type ℓ) (xs : List ℕ) → ((m : ℕ) → contains m xs ≡ true → P m) → All P xs
All-contains P [] f = tt
All-contains P (x ∷ xs) f =
    (f x (contains-head x xs), All-contains P xs (λ m c. f m (ground arith)))

-- A set has one ascending list.
pub IsAscending-unique :
    (xs ys : List ℕ)
    → IsAscending xs
    → IsAscending ys
    → ((m : ℕ) → contains m xs ≡ contains m ys)
    → xs ≡ ys
IsAscending-unique [] [] h k e = refl
IsAscending-unique [] (y ∷ ys) h k e =
    let none_such : false ≡ true = e y ∙ contains-head y ys in absurd cc
IsAscending-unique (x ∷ xs) [] h k e =
    let none_such : false ≡ true = sym (e x) ∙ contains-head x xs in absurd cc
IsAscending-unique (x ∷ xs) (y ∷ ys) h k e =
    let low : y ≤ x = least x y ys k.0 (sym (e x) ∙ contains-head x xs) in
    let high : x ≤ y = least y x xs h.0 (e y ∙ contains-head y ys) in
    let same : x ≡ y = omega (arith, low, high) in
    ap (λ z. z ∷ xs) same
    ∙ ap (λ zs. y ∷ zs)
        (IsAscending-unique xs ys h.1 k.1 (
          tail_same y xs ys (subst (λ z. IsAscending (z ∷ xs)) same h) k
            (subst (λ z. (m : ℕ) → contains m (z ∷ xs) ≡ contains m (y ∷ ys)) same e)))
