-- ===== src/Terminal/Free.antt =====
-- terminal.py, the search for a free number.
use session_kit.Base.{
  ℕ, zero, suc, ◌≤◌, ◌<◌, ◌≡◌, refl, inl, inr, true, false, List, [], ◌∷◌, arith, leb, ◌==◌,
  contains, length, if◌then◌else◌, Bool-cases,
}
use session_kit.Terminal.Registry.{next_free}

-- How many reserved numbers lie at or above `n`.
count_from : ℕ → List ℕ → ℕ
count_from n [] = 0
count_from n (x ∷ xs) = if leb n x then suc (count_from n xs) else count_from n xs

count_from-le-length : (n : ℕ) (xs : List ℕ) → count_from n xs ≤ length xs
unfolding count_from
count_from-le-length n [] = omega arith
count_from-le-length n (x ∷ xs) = ground (arith, count_from-le-length n xs)

count_from_mono : (n : ℕ) (xs : List ℕ) → count_from (suc n) xs ≤ count_from n xs
unfolding count_from
count_from_mono n [] = omega arith
count_from_mono n (x ∷ xs) = ground (arith, count_from_mono n xs)

count_from-falls :
    (n : ℕ) (xs : List ℕ) → contains n xs ≡ true → count_from (suc n) xs < count_from n xs
unfolding count_from
count_from-falls n [] h = cc
count_from-falls n (x ∷ xs) h = ground (arith, count_from-falls n xs, count_from_mono n xs)

absent_of_none : (n : ℕ) (xs : List ℕ) → count_from n xs ≤ 0 → contains n xs ≡ false
unfolding count_from
absent_of_none n [] h = refl
absent_of_none n (x ∷ xs) h = ground (arith, absent_of_none n xs)

enough :
    (fuel n : ℕ) (xs : List ℕ) → count_from n xs ≤ fuel → contains (next_free fuel xs n) xs ≡ false
unfolding next_free
enough zero n xs h = absent_of_none n xs h
enough (suc fuel) n xs h = elim (Bool-cases (contains n xs)) [
  | inl e ↦ rw e (enough fuel (suc n) xs (omega (arith, count_from-falls n xs e)))
  | inr e ↦ rw e e
]

-- As much fuel as there are reserved numbers is enough: the loop ends at a free number.
pub next_free-not-reserved :
    (xs : List ℕ) (n : ℕ) → contains (next_free (length xs) xs n) xs ≡ false
next_free-not-reserved xs n = enough (length xs) n xs (count_from-le-length n xs)

pub next_free-ge : (fuel : ℕ) (xs : List ℕ) (n : ℕ) → n ≤ next_free fuel xs n
unfolding next_free
next_free-ge zero xs n = omega arith
next_free-ge (suc fuel) xs n = ground (arith, next_free-ge fuel xs (suc n))

-- Every number that the search passes over is reserved.
pub next_free-lowest :
    (fuel : ℕ) (xs : List ℕ) (n k : ℕ) → n ≤ k → k < next_free fuel xs n → contains k xs ≡ true
unfolding next_free
next_free-lowest zero xs n k h lt = absurd (omega arith)
next_free-lowest (suc fuel) xs n k h lt = elim (Bool-cases (n == k)) [
  | inl e ↦ ground (arith, next_free-lowest fuel xs (suc n) k)
  | inr e ↦ ground (arith, next_free-lowest fuel xs (suc n) k)
]
