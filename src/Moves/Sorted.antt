-- ===== src/Moves/Sorted.antt =====
-- lib/sessionkit_inventory/account_guard.py: the order of the accounts that a plan may move to.
use session_kit.Base.{
  ℕ, ◌+◌, ◌*◌, ◌≤◌, ◌≡◌, refl, sym, subst, inl, inr, Bool, true, false, ◌&&◌, not, List, [], ◌∷◌,
  arith, All, All-map, leb, if◌then◌else◌, Bool-cases,
}
use session_kit.Moves.Plan.{percent, Candidate, no_worse, insert_candidate, sorted}

-- The order of the accounts without their names: a recommended one first, then the less used.
abbrev pub le : Candidate → Candidate → Bool
le a b =
    if a.recommended && not b.recommended
    then true
    else if b.recommended && not a.recommended
    then false
    else leb a.weekly_used_percent b.weekly_used_percent

le_refl : (a : Candidate) → le a a ≡ true
le_refl a = ground arith

le_trans : (a b c : Candidate) → le a b ≡ true → le b c ≡ true → le a c ≡ true
le_trans a b c p q = ground arith

no_worse-le : (a b : Candidate) → no_worse a b ≡ true → le a b ≡ true
unfolding no_worse
no_worse-le a b h = ground arith

worse-le : (a b : Candidate) → no_worse a b ≡ false → le b a ≡ true
unfolding no_worse
worse-le a b h = ground arith

-- The first of a sorted list is no worse than any candidate.
abbrev pub Leads : List Candidate → List Candidate → Type 0
Leads [] cs = cs ≡ []
Leads (h ∷ t) cs = All (λ c. le h c ≡ true) cs

insert_candidate-Leads :
    (c : Candidate) (ds cs : List Candidate) → Leads ds cs → Leads (insert_candidate c ds) (c ∷ cs)
insert_candidate-Leads c [] cs h = (le_refl c, subst (All (λ x. le c x ≡ true)) (sym h) tt)
insert_candidate-Leads c (d ∷ ds) cs h = elim (Bool-cases (no_worse c d)) [
  | inl e ↦
      rw (e, insert_candidate)
        (le_refl c, All-map _ cs (λ x q. le_trans c d x (no_worse-le c d e) q) h)
  | inr e ↦ rw (e, insert_candidate) (worse-le c d e, h)
]

pub sorted-Leads : (cs : List Candidate) → Leads (sorted cs) cs
unfolding sorted
sorted-Leads [] = refl
sorted-Leads (c ∷ cs) = insert_candidate-Leads c (sorted cs) cs (sorted-Leads cs)

insert_candidate-All :
    (P : Candidate → Type 0) (c : Candidate) (ds : List Candidate)
    → P c
    → All P ds
    → All P (insert_candidate c ds)
insert_candidate-All P c [] p h = (p, tt)
insert_candidate-All P c (d ∷ ds) p h = ground (arith, insert_candidate-All P c ds p h.1)

pub sorted-All : (P : Candidate → Type 0) (cs : List Candidate) → All P cs → All P (sorted cs)
unfolding sorted
sorted-All P [] h = tt
sorted-All P (c ∷ cs) h = insert_candidate-All P c (sorted cs) h.0 (sorted-All P cs h.1)

-- A whole percent is at most half a percent off.
pub percent-near : (w : ℕ) → (percent w * 10000 ≤ w + 5000) × (w ≤ percent w * 10000 + 5000)
unfolding percent
percent-near w = (ground arith, ground arith)
