-- ===== src/Validation/Adds.antt =====
-- validation.py: a loop that refuses what it has seen before.
use session_kit.Base.{
  some-injective, ◌≡◌, refl, sym, ap, subst, inl, inr, Bool, false, List, [], ◌∷◌, Option, none,
  some, arith, any, Bool-cases, Option-cases,
}
use session_kit.Json.{Value}
use session_kit.Validation.Guard.{run, add}

module _ {K : Type 0} (same : K → K → Bool) where
  -- The key joins the set, and was not in it; without a key the set stays.
  abbrev pub Added : Option K → List K → List K → Type 0
  Added none xs ys = xs ≡ ys
  Added (some k) xs ys = (any (same k) xs ≡ false) × (k ∷ xs ≡ ys)

  -- No key of the list is the same as one that was seen before it.
  abbrev pub AllNew : List K → List K → Type 0
  AllNew seen [] = Unit
  AllNew seen (k ∷ ks) = (any (same k) seen ≡ false) × AllNew (k ∷ seen) ks

  pub add-Added : (k : K) (xs ys : List K) → add same k xs ≡ some ys → Added (some k) xs ys
  add-Added k xs ys h = elim (Bool-cases (any (same k) xs)) [
    | inl e ↦ absurd (ground arith)
    | inr e ↦ (e, ground arith)
  ]

abbrev pub push {ℓ} : {A : Type ℓ} → List A → List A → List A
push [] xs = xs
push (k ∷ ks) xs = push ks (k ∷ xs)

-- The keys of the rows that have one.
abbrev pub keys {ℓ} : {K : Type ℓ} → (Value → Option K) → List Value → List K
keys key [] = []
keys key (item ∷ rest) =
    let others = keys key rest in elim (key item) [ none ↦ others | some k ↦ k ∷ others ]

module _ {S K : Type 0} (same : K → K → Bool) (step : Value → S → Option S) (set : S → List K)
    (key : Value → Option K)
    (one : (item : Value) (s s' : S)
      → step item s ≡ some s'
      → Added same (key item) (set s) (set s')) where
  abbrev Result : List Value → List K → List K → Type 0
  Result items before after =
      AllNew same before (keys key items) × (after ≡ push (keys key items) before)

  pub run-AllNew :
      (items : List Value) (s s' : S) → run step items s ≡ some s' → Result items (set s) (set s')
  run-AllNew [] s s' h = (tt, ap set (some-injective (sym h)))
  run-AllNew (item ∷ rest) s s' h = elim (Option-cases (step item s)) [
    | inl e ↦ absurd (ground arith)
    | inr (next, e) ↦
        let (new, pushed) = run-AllNew rest next s' (ground arith) in
        elim (Option-cases (key item)) [
          | inl f ↦
              let kept : set s ≡ set next =
                subst (λ o. Added same o (set s) (set next)) f (one item s next e) in
              let unkeyed : keys key (item ∷ rest) ≡ keys key rest = rw (f, keys) refl in
              subst (λ ks. AllNew same (set s) ks × (set s' ≡ push ks (set s))) (sym unkeyed)
                (subst (λ xs. AllNew same xs (keys key rest) × (set s' ≡ push (keys key rest) xs))
                  (sym kept) (new, pushed))
          | inr (k, f) ↦
              let (fresh, grown) =
                subst (λ o. Added same o (set s) (set next)) f (one item s next e) in
              let keyed : keys key (item ∷ rest) ≡ k ∷ keys key rest = rw (f, keys) refl in
              subst (λ ks. AllNew same (set s) ks × (set s' ≡ push ks (set s))) (sym keyed)
                (
                  (fresh, subst (λ xs. AllNew same xs (keys key rest)) (sym grown) new),
                  subst (λ xs. set s' ≡ push (keys key rest) xs) (sym grown) pushed,
                )
        ]
  ]
