-- ===== src/Closed/Written.antt =====
-- lib/sessionkit_inventory/closed_sessions.py: `record_close` and `forget`.
use session_kit.Base.{
  ℕ, ◌+◌, ◌≡◌, refl, sym, ap, subst, ◌∙◌, inl, inr, String, Bool, false, List, [], ◌∷◌, ◌++◌ as ◌⊕◌,
  Option, none, some, ltb, Bool-cases, Option-cases, string_dec, arith,
}
use session_kit.Json.{Value, str, get, is_mapping}
use session_kit.Common.{valid_uuid}
use session_kit.Common.Exact.{valid_uuid_again}
use session_kit.Common.Text.{Unicode}
use session_kit.Closed.Ledger.{
  Entry, entry, entry_of, entry_value, Row, Ledger, Result, Error, ok, err, bind-ok, ok-injective,
  max_ledger_bytes, max_row_bytes, size, row_of, parse_record, parse_all, scan, record_close,
  provider_of, uuid_or_empty,
}
use session_kit.Closed.Listing.{Listed, load_closed}
use session_kit.Closed.Shown.{Parsed, recorded, held, shown, scan-parse_all}

size-append : (rs : Ledger) (r : Row) → size (rs ⊕ (r ∷ [])) ≡ size rs + r.bytes
size-append [] r = omega arith
size-append (s ∷ rs) r = omega (arith, size-append rs r)

parse_all-append :
    (u : Unicode) (rs : Ledger) (r : Row) (ps : Parsed) (e : Option Entry)
    → parse_all u rs ≡ ok ps
    → parse_record u r ≡ ok e
    → (qs : Parsed) × (parse_all u (rs ⊕ (r ∷ [])) ≡ ok qs)
unfolding parse_all
parse_all-append u [] r ps e h k = ((r, e) ∷ [], rw k refl)
parse_all-append u (s ∷ rs) r ps e h k =
    let (d, f, g) = bind-ok (parse_record u s) h in
    let (es, i, j) = bind-ok (parse_all u rs) g in
    let (qs, l) = parse_all-append u rs r es e i k in ((s, d) ∷ qs, rw (f, l) refl)

recorded-append :
    (u : Unicode) (rs : Ledger) (r : Row) (e : Entry)
    → parse_record u r ≡ ok (some e)
    → recorded u (rs ⊕ (r ∷ [])) ≡ recorded u rs ⊕ (e.closed ∷ [])
recorded-append u [] r e h = rw (h, recorded) refl
recorded-append u (s ∷ rs) r e h = of_first (parse_record u s) (recorded-append u rs r e h)
  where
    of_first :
        (p : Result (Option Entry))
        → recorded u (rs ⊕ (r ∷ [])) ≡ recorded u rs ⊕ (e.closed ∷ [])
        → held p (recorded u (rs ⊕ (r ∷ []))) ≡ held p (recorded u rs) ⊕ (e.closed ∷ [])
    of_first (ok none) k = k
    of_first (ok (some d)) k = ap (λ l. d.closed ∷ l) k
    of_first (err x) k = k

scan-append :
    (u : Unicode) (rows : Ledger) (r : Row) (before : Parsed) (own : Option Entry)
    → scan u (some max_ledger_bytes) rows ≡ ok before
    → parse_record u r ≡ ok own
    → ltb max_ledger_bytes (size rows + r.bytes) ≡ false
    → (qs : Parsed) × (scan u (some max_ledger_bytes) (rows ⊕ (r ∷ [])) ≡ ok qs)
unfolding scan
scan-append u rows r before own h k small =
    let (qs, e) =
      parse_all-append u rows r before own (scan-parse_all u (some max_ledger_bytes) rows before h)
        k in
    (qs, rw (size-append rows r, small) e)

-- What a successful call appended.
Appended : Unicode → (Entry → ℕ) → Entry → Ledger → Ledger → Type 0
Appended u length_of e rows after =
    ((before : Parsed) × (scan u (some max_ledger_bytes) rows ≡ ok before))
    × ((own : Option Entry) × (parse_record u (row_of length_of e) ≡ ok own))
    × (ltb max_ledger_bytes (size rows + length_of e) ≡ false)
    × (after ≡ rows ⊕ (row_of length_of e ∷ []))

record_close-Appended :
    (u : Unicode) (length_of : Entry → ℕ) (v : Value) (rows after : Ledger)
    → record_close u length_of v rows ≡ ok after
    → (e : Entry) × (entry u v ≡ some e) × Appended u length_of e rows after
unfolding record_close Appended
record_close-Appended u length_of v rows after h = elim (Option-cases (entry u v)) [
  | inl e ↦ absurd (no_result (rw (e, record_close) at h))
  | inr (e, f) ↦
      let (before, a, b) =
        bind-ok (scan u (some max_ledger_bytes) rows) (rw (f, record_close) at h) in
      let (own, c, d) = bind-ok (parse_record u (row_of length_of e)) b in
      elim (Bool-cases (ltb max_ledger_bytes (size rows + length_of e))) [
        | inl g ↦ absurd (no_result (rw g at d))
        | inr g ↦ (e, f, ((before, a), (own, c), g, sym (ok-injective (rw g at d))))
      ]
]
  where
    no_result : {x : Error} → err x ≡ ok after → ⊥
    no_result k = cc

pub provider_of-same : (s p : String) → provider_of (str s) ≡ some p → p ≡ s
provider_of-same s p h = ground arith

SameClose : Entry → Entry → Type 0
SameClose e d =
    (d.closed.provider ≡ e.closed.provider)
    × ((d.closed.uuid ≡ uuid_or_empty (str e.closed.uuid))
        × (d.closed.closed_at_unix_ms ≡ e.closed.closed_at_unix_ms))

pub entry-entry_of :
    (u : Unicode) (v : Value) (d : Entry)
    → entry u v ≡ some d
    → (p : String) × (provider_of (get "provider" v) ≡ some p) × (entry_of u p v ≡ d)
unfolding entry
entry-entry_of u v d h = elim (Bool-cases (is_mapping v)) [
  | inr a ↦ absurd (ground arith)
  | inl a ↦ elim (Option-cases (provider_of (get "provider" v))) [
    | inl f ↦ absurd (ground arith)
    | inr (p, f) ↦ (p, f, ground arith)
  ]
]

entry-entry_value : (u : Unicode) (e d : Entry) → entry u (entry_value e) ≡ some d → SameClose e d
unfolding entry_of get string_dec SameClose
entry-entry_value u e d h =
    let (p, f, same) = entry-entry_of u (entry_value e) d h in
    subst (SameClose e) same (provider_of-same e.closed.provider p f, (refl, refl))

parse_record-SameClose :
    (u : Unicode) (length_of : Entry → ℕ) (e : Entry) (own : Option Entry)
    → parse_record u (row_of length_of e) ≡ ok own
    → (d : Entry) × (own ≡ some d) × SameClose e d
unfolding parse_record
parse_record-SameClose u length_of e own h = elim (Bool-cases (ltb max_row_bytes (length_of e))) [
  | inl a ↦ cc
  | inr a ↦ elim (Option-cases (entry u (entry_value e))) [
    | inl f ↦ cc
    | inr (d, f) ↦ (d, sym (ok-injective (rw (a, f) at h)), entry-entry_value u e d f)
  ]
]

uuid_or_empty_again : (v : Value) → uuid_or_empty (str (uuid_or_empty v)) ≡ uuid_or_empty v
unfolding valid_uuid
uuid_or_empty_again v = elim (Option-cases (valid_uuid v)) [
  | inl e ↦ rw (e, uuid_or_empty) refl
  | inr (k, e) ↦ let again = valid_uuid_again v k e in rw (e, uuid_or_empty, again) refl
]

-- The conversation of an entry is exact.
entry-exact :
    (u : Unicode) (v : Value) (e : Entry)
    → entry u v ≡ some e
    → uuid_or_empty (str e.closed.uuid) ≡ e.closed.uuid
unfolding entry_of
entry-exact u v e h =
    let (p, f, same) = entry-entry_of u v e h in
    subst (λ d. uuid_or_empty (str d.closed.uuid) ≡ d.closed.uuid) same
      (uuid_or_empty_again (get "uuid" v))

pub record_close-recorded :
    (u : Unicode) (readable : String → String → Bool) (length_of : Entry → ℕ) (v : Value)
    (rows after : Ledger)
    → record_close u length_of v rows ≡ ok after
    → ((e : Entry) × (d : Entry) × (entry u v ≡ some e)
        × (recorded u after ≡ recorded u rows ⊕ (d.closed ∷ []))
        × (d.closed.provider ≡ e.closed.provider)
        × (d.closed.uuid ≡ e.closed.uuid)
        × (d.closed.closed_at_unix_ms ≡ e.closed.closed_at_unix_ms))
      × ((list : List Listed) × (load_closed u readable none false after ≡ ok list))
unfolding load_closed Appended SameClose
record_close-recorded u readable length_of v rows after h =
    let (e, made, ((before, a), (own, c), small, same)) =
      record_close-Appended u length_of v rows after h in
    let (qs, read) = scan-append u rows (row_of length_of e) before own a c small in
    let (d, is_d, (provider, (uuid, moment))) = parse_record-SameClose u length_of e own c in
    let holds : recorded u after ≡ recorded u rows ⊕ (d.closed ∷ []) =
      ap (recorded u) same
      ∙ recorded-append u rows (row_of length_of e) d (c ∙ ap (λ o. ok o) is_d) in
    (
      (e, d, made, holds, provider, uuid ∙ entry-exact u v e made, moment),
      (shown readable qs, rw (same, read) refl),
    )
