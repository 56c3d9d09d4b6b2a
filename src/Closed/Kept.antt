-- ===== src/Closed/Kept.antt =====
-- lib/sessionkit_inventory/closed_sessions.py: the table of the list.
use session_kit.Base.{
  both_hold, ◌≤◌, ◌≡◌, refl, sym, subst, ◌∙◌, inl, inr, String, true, false, List, [], ◌∷◌, Option,
  none, some, ltb, ltb→lt, ltb→ge, ◌=~◌, =~_refl, =~→eq, All, All-map, Any, Bool-cases, arith,
}
use session_kit.Base.Sort.{IsSorted}
use session_kit.Closed.Ledger.{Closed, Entry, Row}
use session_kit.Closed.Listing.{Kept, identity, same_key, upsert}

-- The two closes are of one session, and the second is not older.
abbrev pub IsCovered : Closed → Closed → Type 0
IsCovered x y = (same_key y x ≡ true) × (x.closed_at_unix_ms ≤ y.closed_at_unix_ms)

unfoldable pub Covers : Closed → Kept → Type 0
Covers x k = IsCovered x k.closed

same_key-eq :
    (a b : Closed) → same_key a b ≡ true → (a.provider ≡ b.provider) × (identity a ≡ identity b)
same_key-eq a b h = elim (Bool-cases (a.provider =~ b.provider)) [
  | inl e ↦ (=~→eq a.provider b.provider e, =~→eq (identity a) (identity b) (rw e at h))
  | inr e ↦ absurd (ground arith)
]

same_text : {s t : String} → s ≡ t → (s =~ t) ≡ true
same_text {s} e = subst (λ r. (s =~ r) ≡ true) e (=~_refl s)

eq-same_key :
    (a b : Closed) → a.provider ≡ b.provider → identity a ≡ identity b → same_key a b ≡ true
eq-same_key a b p i = both_hold (same_text p) (same_text i)

pub same_key-sym : (a b : Closed) → same_key a b ≡ true → same_key b a ≡ true
same_key-sym a b h = let (p, i) = same_key-eq a b h in eq-same_key b a (sym p) (sym i)

same_key_trans : (a b c : Closed) → same_key a b ≡ true → same_key b c ≡ true → same_key a c ≡ true
same_key_trans a b c h k =
    let (p, i) = same_key-eq a b h in
    let (q, j) = same_key-eq b c k in eq-same_key a c (p ∙ q) (i ∙ j)

differs : (a b c : Closed) → same_key a b ≡ true → same_key a c ≡ false → same_key b c ≡ false
differs a b c h k = elim (Bool-cases (same_key b c)) [
  | inl e ↦ let also : same_key a c ≡ true = same_key_trans a b c h e in absurd cc
  | inr e ↦ e
]

covers_self : (x : Closed) → IsCovered x x
covers_self x = (eq-same_key x x refl refl, omega arith)

-- No two rows of one session.
unfoldable pub IsKeyed : List Kept → Type 0
IsKeyed ks = IsSorted (λ j k. same_key j.closed k.closed ≡ false) ks

pub All-upsert :
    (P : Kept → Type 0) (k : Kept) (js : List Kept) → P k → All P js → All P (upsert k js)
unfolding upsert
All-upsert P k [] p h = (p, tt)
All-upsert P k (j ∷ js) p h = elim (Bool-cases (same_key j.closed k.closed)) [
  | inr e ↦ rw (e, All) (h.0, All-upsert P k js p h.1)
  | inl e ↦ elim (Bool-cases (ltb j.closed.closed_at_unix_ms k.closed.closed_at_unix_ms)) [
    | inl f ↦ rw (e, f, All) (p, h.1)
    | inr f ↦ rw (e, f, All) h
  ]
]

pub upsert-Covers : (k : Kept) (js : List Kept) → Any (Covers k.closed) (upsert k js)
unfolding upsert Covers
upsert-Covers k [] = inl (covers_self k.closed)
upsert-Covers k (j ∷ js) = elim (Bool-cases (same_key j.closed k.closed)) [
  | inr e ↦ rw (e, Any) (inr (upsert-Covers k js))
  | inl e ↦ elim (Bool-cases (ltb j.closed.closed_at_unix_ms k.closed.closed_at_unix_ms)) [
    | inl f ↦ rw (e, f, Any) (inl (covers_self k.closed))
    | inr f ↦ rw (e, f, Any) (inl (e, ltb→ge _ _ f))
  ]
]

-- A newer close of a session covers what the row that it replaces covered.
pub upsert-still :
    (x : Closed) (k : Kept) (js : List Kept) → Any (Covers x) js → Any (Covers x) (upsert k js)
unfolding upsert Covers
upsert-still x k [] h = absurd h
upsert-still x k (j ∷ js) h = elim (Bool-cases (same_key j.closed k.closed)) [
  | inr e ↦ rw (e, Any) (elim h [ inl p ↦ inl p | inr q ↦ inr (upsert-still x k js q) ])
  | inl e ↦ elim (Bool-cases (ltb j.closed.closed_at_unix_ms k.closed.closed_at_unix_ms)) [
    | inr f ↦ rw (e, f, Any) h
    | inl f ↦
        let lt = ltb→lt j.closed.closed_at_unix_ms k.closed.closed_at_unix_ms f in
        rw (e, f, Any)
          (elim h [
            | inr a ↦ inr a
            | inl (same, le) ↦ inl (
              same_key_trans k.closed j.closed x (same_key-sym j.closed k.closed e) same,
              omega (arith, le, lt),
            )
          ])
  ]
]

pub upsert-IsKeyed : (k : Kept) (js : List Kept) → IsKeyed js → IsKeyed (upsert k js)
unfolding upsert IsKeyed
upsert-IsKeyed k [] h = (tt, tt)
upsert-IsKeyed k (j ∷ js) h = elim (Bool-cases (same_key j.closed k.closed)) [
  | inr e ↦ rw (e, IsSorted) (All-upsert _ k js e h.0, upsert-IsKeyed k js h.1)
  | inl e ↦ elim (Bool-cases (ltb j.closed.closed_at_unix_ms k.closed.closed_at_unix_ms)) [
    | inr f ↦ rw (e, f, IsSorted) h
    | inl f ↦
        rw (e, f, IsSorted) (All-map _ js (λ z d. differs j.closed k.closed z.closed e d) h.0, h.1)
  ]
]

-- The closes that rows hold.
abbrev pub entries : List (Row × Option Entry) → List Closed
entries [] = []
entries (r ∷ rs) = elim r.1 [ none ↦ entries rs | some e ↦ e.closed ∷ entries rs ]
