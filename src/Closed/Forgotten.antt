-- ===== src/Closed/Forgotten.antt =====
-- lib/sessionkit_inventory/closed_sessions.py: `forget`.
use session_kit.Base.{
  ℕ, suc, ◌≡◌, refl, sym, ap, subst, ◌∙◌, inl, inr, String, false, not, List, [], ◌∷◌, Option, none,
  some, keep_if, ◌==◌, ◌=~◌, Bool-cases, arith,
}
use session_kit.Base.Sort.{tally}
use session_kit.Json.{Value}
use session_kit.Common.Text.{Unicode}
use session_kit.Closed.Ledger.{
  Closed, Entry, Ledger, ok, bind-ok, ok-injective, parse_record, parse_all, scan, provider_of,
  uuid_or_empty, is_about, drops, rewritten, forget,
}
use session_kit.Closed.Kept.{entries}
use session_kit.Closed.Shown.{Parsed, recorded, parse_all-recorded, scan-parse_all}

-- What a rewrite leaves, when it is read again.
parse_all-rewritten :
    (u : Unicode) (p id : String) (rows : Ledger) (ps : Parsed)
    → parse_all u rows ≡ ok ps
    → recorded u (rewritten p id ps) ≡ keep_if (λ c. not (is_about p id c)) (recorded u rows)
unfolding parse_all rewritten
parse_all-rewritten u p id [] ps h =
    ap (λ qs. recorded u (rewritten p id qs)) (sym (ok-injective h))
parse_all-rewritten u p id (r ∷ rs) ps h =
    let (e, f, g) = bind-ok (parse_record u r) h in
    let (es, i, j) = bind-ok (parse_all u rs) g in
    ap (λ qs. recorded u (rewritten p id qs)) (sym (ok-injective j))
    ∙ step e es f (parse_all-rewritten u p id rs es i)
  where
    step :
        (e : Option Entry) (es : Parsed)
        → parse_record u r ≡ ok e
        → recorded u (rewritten p id es) ≡ keep_if (λ c. not (is_about p id c)) (recorded u rs)
        → recorded u (rewritten p id ((r, e) ∷ es))
          ≡ keep_if (λ c. not (is_about p id c)) (recorded u (r ∷ rs))
    step none es f k = rw (f, recorded) k
    step (some e) es f k = elim (Bool-cases (is_about p id e.closed)) [
      | inl d ↦ rw (f, recorded, d) k
      | inr d ↦ rw (f, recorded, d, f) (ap (λ l. e.closed ∷ l) k)
    ]

tally-drops :
    (p id : String) (ps : Parsed) → tally (drops p id) ps ≡ tally (is_about p id) (entries ps)
tally-drops p id [] = refl
tally-drops p id ((row, none) ∷ ps) = tally-drops p id ps
tally-drops p id ((row, some e) ∷ ps) = ground (arith, tally-drops p id ps)

-- Where no close is of the conversation, all are kept.
keep_if-none :
    (p id : String) (cs : List Closed)
    → tally (is_about p id) cs ≡ 0
    → keep_if (λ c. not (is_about p id c)) cs ≡ cs
keep_if-none p id [] h = refl
keep_if-none p id (c ∷ cs) h = elim (Bool-cases (is_about p id c)) [
  | inl e ↦
      let more : suc (tally (is_about p id) cs) ≡ 0 = rw e at h in absurd (omega (arith, more))
  | inr e ↦ rw e (ap (λ l. c ∷ l) (keep_if-none p id cs (rw e at h)))
]

-- The closes that are left, and the number of those that are dropped.
Forgotten : Unicode → String → String → Ledger → ℕ × Ledger → Type 0
Forgotten u p id rows r =
    (recorded u r.1 ≡ keep_if (λ c. not (is_about p id c)) (recorded u rows))
    × (r.0 ≡ tally (is_about p id) (recorded u rows))

-- A call that succeeds for a conversation drops the closes of that conversation from the ledger, all
-- of them and no other, and says how many there were.
pub forget-recorded :
    (u : Unicode) (provider uuid : Value) (p : String) (rows after : Ledger) (n : ℕ)
    → provider_of provider ≡ some p
    → (uuid_or_empty uuid =~ "") ≡ false
    → forget u provider uuid rows ≡ ok (n, after)
    → (recorded u after ≡ keep_if (λ c. not (is_about p (uuid_or_empty uuid) c)) (recorded u rows))
      × (n ≡ tally (is_about p (uuid_or_empty uuid)) (recorded u rows))
unfolding forget Forgotten
forget-recorded u provider uuid p rows after n h k f =
    let id : String = uuid_or_empty uuid in
    let (ps, e, g) = bind-ok (scan u none rows) (rw (h, forget, k) at f) in
    let read : parse_all u rows ≡ ok ps = scan-parse_all u none rows ps e in
    let same = parse_all-recorded u rows ps read in
    let count : tally (drops p id) ps ≡ tally (is_about p id) (recorded u rows) =
      tally-drops p id ps ∙ ap (tally (is_about p id)) same in
    elim (Bool-cases (tally (drops p id) ps == 0)) [
      | inl z ↦
          let zero_count : tally (drops p id) ps ≡ 0 = ground arith in
          subst (Forgotten u p id rows) (ok-injective (rw z at g)) (
            sym (keep_if-none p id (recorded u rows) (sym count ∙ zero_count)),
            sym zero_count ∙ count,
          )
      | inr z ↦
          subst (Forgotten u p id rows) (ok-injective (rw z at g))
            (parse_all-rewritten u p id rows ps read, count)
    ]
