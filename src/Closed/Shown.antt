-- ===== src/Closed/Shown.antt =====
-- lib/sessionkit_inventory/closed_sessions.py: what `load_closed` lists.
use session_kit.Base.{
  ℕ, suc, ◌≤◌, ◌≡◌, sym, ap, subst, ◌∙◌, inl, inr, String, Bool, false, List, [], ◌∷◌, Option, none,
  some, map, All, All-map, All-self, Any, Bool-cases, arith,
}
use session_kit.Base.Sort.{
  sort_by, IsSorted, All-sort_by, Any-sort_by, sort_by-IsSorted, sort_by-IsPairwise,
}
use session_kit.Common.Text.{Unicode}
use session_kit.Closed.Ledger.{
  Closed, Entry, Row, Ledger, Result, ok, err, bind-ok, ok-injective, parse_record, parse_all, scan,
}
use session_kit.Closed.Listing.{
  Kept, same_key, retain, retain_all, newer, Listed, listed_of, maximum_of, load_closed,
}
use session_kit.Closed.Kept.{
  IsCovered, Covers, IsKeyed, entries, upsert-Covers, upsert-still, upsert-IsKeyed, All-upsert,
  same_key-sym,
}

abbrev pub Parsed : Type 0
Parsed = List (Row × Option Entry)

retain_all-still :
    (x : Closed) (n : ℕ) (rs : Parsed) (table : List Kept)
    → Any (Covers x) table
    → Any (Covers x) (retain_all n rs table)
unfolding retain_all retain
retain_all-still x n [] table h = h
retain_all-still x n ((row, none) ∷ rs) table h = retain_all-still x (suc n) rs table h
retain_all-still x n ((row, some e) ∷ rs) table h =
    retain_all-still x (suc n) rs _ (upsert-still x _ table h)

retain_all-Covers :
    (n : ℕ) (rs : Parsed) (table : List Kept)
    → All (λ x. Any (Covers x) (retain_all n rs table)) (entries rs)
unfolding retain_all retain
retain_all-Covers n [] table = tt
retain_all-Covers n ((row, none) ∷ rs) table = retain_all-Covers (suc n) rs table
retain_all-Covers n ((row, some e) ∷ rs) table = (
  retain_all-still e.closed (suc n) rs _
      (upsert-Covers (record { closed = e.closed; sequence = n }) table),
  retain_all-Covers (suc n) rs _,
)

All-retain_all :
    (P : Closed → Type 0) (n : ℕ) (rs : Parsed) (table : List Kept)
    → All P (entries rs)
    → All (λ k. P k.closed) table
    → All (λ k. P k.closed) (retain_all n rs table)
unfolding retain_all retain
All-retain_all P n [] table h k = k
All-retain_all P n ((row, none) ∷ rs) table h k = All-retain_all P (suc n) rs table h k
All-retain_all P n ((row, some e) ∷ rs) table h k =
    All-retain_all P (suc n) rs _ h.1 (All-upsert _ _ table h.0 k)

retain_all-IsKeyed :
    (n : ℕ) (rs : Parsed) (table : List Kept) → IsKeyed table → IsKeyed (retain_all n rs table)
unfolding retain_all retain
retain_all-IsKeyed n [] table h = h
retain_all-IsKeyed n ((row, none) ∷ rs) table h = retain_all-IsKeyed (suc n) rs table h
retain_all-IsKeyed n ((row, some e) ∷ rs) table h =
    retain_all-IsKeyed (suc n) rs _ (upsert-IsKeyed _ table h)

-- The close that a row holds, before others.
abbrev pub held : Result (Option Entry) → List Closed → List Closed
held (ok none) rest = rest
held (ok (some e)) rest = e.closed ∷ rest
held (err x) rest = rest

-- The closes that the rows of a ledger hold.
abbrev pub recorded : Unicode → Ledger → List Closed
recorded u [] = []
recorded u (r ∷ rs) = held (parse_record u r) (recorded u rs)

pub parse_all-recorded :
    (u : Unicode) (rows : Ledger) (ps : Parsed)
    → parse_all u rows ≡ ok ps
    → entries ps ≡ recorded u rows
unfolding parse_all
parse_all-recorded u [] ps h = ap entries (sym (ok-injective h))
parse_all-recorded u (r ∷ rs) ps h =
    let (e, f, g) = bind-ok (parse_record u r) h in
    let (es, i, j) = bind-ok (parse_all u rs) g in
    ap entries (sym (ok-injective j)) ∙ step e es f (parse_all-recorded u rs es i)
  where
    step :
        (e : Option Entry) (es : Parsed)
        → parse_record u r ≡ ok e
        → entries es ≡ recorded u rs
        → entries ((r, e) ∷ es) ≡ recorded u (r ∷ rs)
    step none es f k = rw (f, recorded) k
    step (some e) es f k = rw (f, recorded) (ap (λ l. e.closed ∷ l) k)

-- Newest first, and one row for each session.
abbrev pub Follows : Listed → Listed → Type 0
Follows l m =
    (m.closed.closed_at_unix_ms ≤ l.closed.closed_at_unix_ms) × (same_key l.closed m.closed ≡ false)

Newest : Kept → Kept → Type 0
Newest j k = k.closed.closed_at_unix_ms ≤ j.closed.closed_at_unix_ms

newer-IsSorted : (ks : List Kept) → IsSorted Newest (sort_by newer ks)
unfolding newer Newest
newer-IsSorted ks =
    sort_by-IsSorted Newest newer (λ j k h. ground arith) (λ j k h. ground arith)
      (λ i j k h g. omega (arith, h, g)) ks

keyed : (ks : List Kept) → IsKeyed ks → IsKeyed (sort_by newer ks)
unfolding IsKeyed
keyed ks h =
    sort_by-IsPairwise (λ j k. same_key j.closed k.closed ≡ false) newer
      (λ j k e. elim (Bool-cases (same_key k.closed j.closed)) [
        | inl s ↦ let back = same_key-sym k.closed j.closed s in absurd cc
        | inr s ↦ s
      ])
      ks h

module _ (readable : String → String → Bool) where
  Any-listed :
      (P : Closed → Type 0) (ks : List Kept)
      → Any (λ k. P k.closed) ks
      → Any (λ l. P l.closed) (map (listed_of readable) ks)
  Any-listed P [] h = h
  Any-listed P (k ∷ ks) (inl p) = inl p
  Any-listed P (k ∷ ks) (inr h) = inr (Any-listed P ks h)

  All-listed :
      (P : Closed → Type 0) (ks : List Kept)
      → All (λ k. P k.closed) ks
      → All (λ l. P l.closed) (map (listed_of readable) ks)
  All-listed P [] h = tt
  All-listed P (k ∷ ks) h = (h.0, All-listed P ks h.1)

  Follows-listed :
      (ks : List Kept)
      → IsSorted Newest ks
      → IsKeyed ks
      → IsSorted Follows (map (listed_of readable) ks)
  unfolding Newest IsKeyed
  Follows-listed [] h k = tt
  Follows-listed (k ∷ ks) h j = (both_of ks h.0 j.0, Follows-listed ks h.1 j.1)
    where
      both_of :
          (js : List Kept)
          → All (λ j. j.closed.closed_at_unix_ms ≤ k.closed.closed_at_unix_ms) js
          → All (λ j. same_key k.closed j.closed ≡ false) js
          → All (Follows (listed_of readable k)) (map (listed_of readable) js)
      both_of [] a b = tt
      both_of (j ∷ js) a b = ((a.0, b.0), both_of js a.1 b.1)

-- The list, once the rows are read.
abbrev pub shown : (String → String → Bool) → Parsed → List Listed
shown readable ps = map (listed_of readable) (sort_by newer (retain_all 1 ps []))

pub scan-parse_all :
    (u : Unicode) (maximum : Option ℕ) (rows : Ledger) (ps : Parsed)
    → scan u maximum rows ≡ ok ps
    → parse_all u rows ≡ ok ps
unfolding scan
scan-parse_all u maximum rows ps h = ground arith

-- A list without a limit that is read holds, for each close of the ledger, a row of that session
-- that is not older; each row is a close of the ledger; the rows stand newest first, and no two are
-- of one session.
pub load_closed-shows :
    (u : Unicode) (readable : String → String → Bool) (allow_large : Bool) (rows : Ledger)
    (list : List Listed)
    → load_closed u readable none allow_large rows ≡ ok list
    → All (λ x. Any (λ l. IsCovered x l.closed) list) (recorded u rows)
      × (All (λ l. Any (λ x. x ≡ l.closed) (recorded u rows)) list × IsSorted Follows list)
unfolding load_closed Covers IsKeyed
load_closed-shows u readable allow_large rows list h =
    let (ps, e, f) = bind-ok (scan u (maximum_of allow_large) rows) h in
    let same : entries ps ≡ recorded u rows =
      parse_all-recorded u rows ps (scan-parse_all u _ rows ps e) in
    let table : List Kept = retain_all 1 ps [] in
    subst
      (λ l.
        All (λ x. Any (λ m. IsCovered x m.closed) l) (recorded u rows)
        × (All (λ m. Any (λ x. x ≡ m.closed) (recorded u rows)) l × IsSorted Follows l))
      (ok-injective f)
      (
        subst (λ xs. All (λ x. Any (λ m. IsCovered x m.closed) (shown readable ps)) xs) same
            (All-map _ (entries ps)
              (λ x c. Any-listed readable (IsCovered x) _ (Any-sort_by newer _ table c))
              (retain_all-Covers 1 ps [])),
        (
          All-listed readable (λ c. Any (λ x. x ≡ c) (recorded u rows)) _
              (All-sort_by newer _ table (
                All-retain_all (λ c. Any (λ x. x ≡ c) (recorded u rows)) 1 ps []
                  (subst (λ xs. All (λ c. Any (λ x. x ≡ c) (recorded u rows)) xs) (sym same)
                    (All-self (recorded u rows)))
                  tt)),
          Follows-listed readable _ (newer-IsSorted table)
              (keyed table (retain_all-IsKeyed 1 ps [] tt)),
        ),
      )
