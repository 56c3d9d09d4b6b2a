-- ===== src/Picker/Held.antt =====
-- lib/sessionkit_tui/rows.py: the order of the list, while it holds still under the highlight.
use session_kit.Base.{
  ℕ, suc, ◌+◌, ◌≤◌, ◌<◌, ◌≡◌, refl, ap, subst, ◌∙◌, ◌⊎◌, inl, inr, String, Bool, true, false, not,
  List, [], ◌∷◌, none, some, length, any, keep_if, ltb, ltb→lt, ltb→ge, ◌=~◌, =~→eq, if◌then◌else◌,
  Bool-cases, All, arith,
}
use session_kit.Base.Assoc.{Dict, lookup, insert, lookup-insert}
use session_kit.Base.Sort.{
  sort_by, tally, IsSorted, tally-sort_by, sort_by-IsSorted, keep_if-sort_by, IsSorted-map,
}
use session_kit.Common.Text.{Unicode}
use session_kit.Picker.Model.{Session}
use session_kit.Picker.Order.{comes_before}
use session_kit.Picker.Rows.{places_of, place_of, earlier, order_sessions}

-- No key is pinned twice.
abbrev pub OncePinned : List String → Type 0
OncePinned [] = Unit
OncePinned (k ∷ ks) = (any (λ j. j =~ k) ks ≡ false) × OncePinned ks

abbrev pub is_pinned : List String → Session → Bool
is_pinned ks s = any (λ k. k =~ s.key) ks

-- The first key stands before the second, or is the same.
abbrev pub Precedes : List String → String → String → Type 0
Precedes [] j k = ⊥
Precedes (x ∷ xs) j k =
    ((x =~ j) ≡ true) ⊎ (((x =~ j) ≡ false) × ((x =~ k) ≡ false) × Precedes xs j k)

-- What may stand before what: a pinned session only behind those that were pinned before it.
abbrev pub Holds : List String → Session → Session → Type 0
Holds ks s t = is_pinned ks t ≡ true → (is_pinned ks s ≡ true) × Precedes ks s.key t.key

-- The place of the key, counted from 0.
index : String → List String → ℕ
index j [] = 0
index j (k ∷ ks) = if k =~ j then 0 else suc (index j ks)

abbrev pinned_key : List String → String → Bool
pinned_key ks j = any (λ k. k =~ j) ks

not_repeated :
    (k j : String) (ks : List String)
    → (k =~ j) ≡ true
    → any (λ x. x =~ k) ks ≡ false
    → pinned_key ks j ≡ false
not_repeated k j ks e h = subst (λ x. pinned_key ks x ≡ false) (=~→eq k j e) h

lookup-places_of :
    (n : ℕ) (ks : List String) (j : String) (d : Dict ℕ)
    → OncePinned ks
    → lookup j (places_of n ks d) ≡ (if pinned_key ks j then some (n + index j ks) else lookup j d)
unfolding places_of index
lookup-places_of n [] j d h = refl
lookup-places_of n (k ∷ ks) j d h =
    let later = lookup-places_of (suc n) ks j (insert k n d) h.1 in
    elim (Bool-cases (k =~ j)) [
      | inl e ↦
          let absent = not_repeated k j ks e h.0 in
          let zero : n ≡ n + 0 = omega arith in
          rw e (later ∙ rw absent (lookup-insert k j n d ∙ rw e (ap some zero)))
      | inr e ↦
          let next : suc n + index j ks ≡ n + suc (index j ks) = omega arith in
          rw e (
            later ∙ (elim (Bool-cases (pinned_key ks j)) [
              | inl g ↦ rw g (ap some next)
              | inr g ↦ rw g (lookup-insert k j n d ∙ rw e refl)
            ]))
    ]

-- None of the keys is in the dict yet.
AllNew : List String → Dict ℕ → Type 0
AllNew ks d = All (λ k. lookup k d ≡ none) ks

length-insert :
    (k : String) (n : ℕ) (d : Dict ℕ) → lookup k d ≡ none → length (insert k n d) ≡ suc (length d)
length-insert k n [] h = refl
length-insert k n (e ∷ d) h = ground (arith, length-insert k n d)

still_new :
    (k : String) (n : ℕ) (ks : List String) (d : Dict ℕ)
    → any (λ j. j =~ k) ks ≡ false
    → AllNew ks d
    → AllNew ks (insert k n d)
unfolding AllNew
still_new k n [] d o h = tt
still_new k n (j ∷ ks) d o h =
    let other : (k =~ j) ≡ false = ground arith in
    (lookup-insert k j n d ∙ rw other h.0, still_new k n ks d (ground arith) h.1)

length-places_of :
    (n : ℕ) (ks : List String) (d : Dict ℕ)
    → OncePinned ks
    → AllNew ks d
    → length (places_of n ks d) ≡ length d + length ks
unfolding places_of AllNew
length-places_of n [] d o h = omega arith
length-places_of n (k ∷ ks) d o h =
    let later = length-places_of (suc n) ks (insert k n d) o.1 (still_new k n ks d o.0 h.1) in
    omega (arith, later, length-insert k n d h.0)

none_in_empty : (ks : List String) → AllNew ks []
unfolding AllNew
none_in_empty [] = tt
none_in_empty (k ∷ ks) = (refl, none_in_empty ks)

place_of-index :
    (ks : List String) (s : Session)
    → OncePinned ks
    → place_of (places_of 0 ks []) s ≡ (if is_pinned ks s then index s.key ks else length ks)
unfolding place_of
place_of-index ks s o =
    let found = lookup-places_of 0 ks s.key [] o in
    let size = length-places_of 0 ks [] o (none_in_empty ks) in
    elim (Bool-cases (is_pinned ks s)) [
      | inl e ↦ rw (found, e, place_of) (omega arith)
      | inr e ↦ rw (found, e, place_of) (omega (arith, size))
    ]

index-lt : (j : String) (ks : List String) → pinned_key ks j ≡ true → index j ks < length ks
unfolding index
index-lt j [] h = cc
index-lt j (k ∷ ks) h = elim (Bool-cases (k =~ j)) [
  | inl e ↦ rw e (omega arith)
  | inr e ↦ rw e (let low = index-lt j ks (ground arith) in omega (arith, low))
]

index-Precedes :
    (ks : List String) (j k : String)
    → pinned_key ks j ≡ true
    → index j ks ≤ index k ks
    → Precedes ks j k
unfolding index
index-Precedes [] j k h le = cc
index-Precedes (x ∷ xs) j k h le = elim (Bool-cases (x =~ j)) [
  | inl e ↦ inl e
  | inr e ↦ elim (Bool-cases (x =~ k)) [
    | inl f ↦ absurd (ground arith)
    | inr f ↦ inr (e, f, index-Precedes xs j k (ground arith) (ground arith))
  ]
]

place-Holds :
    (ks : List String) (s t : Session)
    → OncePinned ks
    → place_of (places_of 0 ks []) s ≤ place_of (places_of 0 ks []) t
    → Holds ks s t
place-Holds ks s t o le pinned =
    let ps = place_of-index ks s o in
    let pt : place_of (places_of 0 ks []) t ≡ index t.key ks =
      place_of-index ks t o ∙ rw pinned refl in
    let low = index-lt t.key ks pinned in
    elim (Bool-cases (is_pinned ks s)) [
      | inr e ↦
          let last : place_of (places_of 0 ks []) s ≡ length ks = ps ∙ rw e refl in
          absurd (omega (arith, le, last, pt, low))
      | inl e ↦
          let first : place_of (places_of 0 ks []) s ≡ index s.key ks = ps ∙ rw e refl in
          (e, index-Precedes ks s.key t.key e (omega (arith, le, first, pt)))
    ]

unpinned_level :
    (ks : List String) (s t : Session)
    → OncePinned ks
    → not (is_pinned ks s) ≡ true
    → not (is_pinned ks t) ≡ true
    → earlier (places_of 0 ks []) s t ≡ false
unfolding earlier
unpinned_level ks s t o ns nt =
    let un : is_pinned ks s ≡ false = ground arith in
    let ut : is_pinned ks t ≡ false = ground arith in
    let ps : place_of (places_of 0 ks []) s ≡ length ks = place_of-index ks s o ∙ rw un refl in
    let pt : place_of (places_of 0 ks []) t ≡ length ks = place_of-index ks t o ∙ rw ut refl in
    rw (ps, pt) (ground arith)

sort_by-Holds :
    (ks : List String) (ss : List Session)
    → OncePinned ks
    → IsSorted (Holds ks) (sort_by (earlier (places_of 0 ks [])) ss)
unfolding earlier
sort_by-Holds ks ss o =
    let f = place_of (places_of 0 ks []) in
    IsSorted-map (sort_by (λ s t. ltb (f s) (f t)) ss) (λ s t le. place-Holds ks s t o le)
      (sort_by-IsSorted (λ s t. f s ≤ f t) (λ s t. ltb (f s) (f t))
        (λ s t e. let lt = ltb→lt (f s) (f t) e in omega (arith, lt))
        (λ s t e. ltb→ge (f s) (f t) e) (λ s t v h k. omega (arith, h, k)) ss)

-- While rows are pinned, no key twice, the list holds the sessions it was given, each as often. The
-- pinned ones stand first, in the order in which they were pinned, and the others behind them, in the
-- order that they have where nothing is pinned.
pub order_sessions-Holds :
    (u : Unicode) (threshold : ℕ) (q : Session → Bool) (ss : List Session) (k : String)
    (ks : List String)
    → OncePinned (k ∷ ks)
    → IsSorted (Holds (k ∷ ks)) (order_sessions u threshold ss (k ∷ ks))
      × (keep_if (λ s. not (is_pinned (k ∷ ks) s)) (order_sessions u threshold ss (k ∷ ks))
          ≡ keep_if (λ s. not (is_pinned (k ∷ ks) s)) (order_sessions u threshold ss []))
      × (tally q (order_sessions u threshold ss (k ∷ ks)) ≡ tally q ss)
unfolding order_sessions
order_sessions-Holds u threshold q ss k ks o = (
  sort_by-Holds (k ∷ ks) _ o,
  keep_if-sort_by (earlier (places_of 0 (k ∷ ks) [])) (λ s. not (is_pinned (k ∷ ks) s))
      (λ s t. unpinned_level (k ∷ ks) s t o) _,
  tally-sort_by _ q (sort_by (λ s t. comes_before u threshold s.raw t.raw) ss)
      ∙ tally-sort_by _ q ss,
)
