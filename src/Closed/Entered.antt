-- ===== src/Closed/Entered.antt =====
-- lib/session_inventory.py: what `_record_closed_session` leaves in the ledger.
use session_kit.Base.{
  none_no_some, some-injective, =~→eq, ℕ, ◌≡◌, refl, sym, ap, subst, ◌∙◌, inl, inr, String, Bool,
  true, false, List, [], ◌∷◌, ◌++◌ as ◌⊕◌, none, some, Any, Bool-cases, Option-cases, ◌=~◌,
  string_dec,
}
use session_kit.Base.Result.{Result-cases}
use session_kit.Json.{Value, str, get, is_mapping}
use session_kit.Common.{valid_uuid, is_provider}
use session_kit.Common.Text.{Unicode}
use session_kit.Lifecycle.Intents.{is_some}
use session_kit.Closed.Ledger.{
  Closed, Entry, entry, entry_of, Ledger, record_close, provider_of, uuid_or_empty,
}
use session_kit.Closed.Shown.{recorded}
use session_kit.Closed.Written.{record_close-recorded, entry-entry_of, provider_of-same}
use session_kit.Closed.Known.{Call, call_value, full_call, source_of, record_closed_session}

-- The close is of the provider and of the conversation that the text names.
abbrev pub IsOf : String → String → Closed → Type 0
IsOf p c x = (x.provider ≡ p) × (valid_uuid (str c) ≡ some x.uuid)

Any-last : (P : Closed → Type 0) (xs : List Closed) (x : Closed) → P x → Any P (xs ⊕ (x ∷ []))
Any-last P [] x h = inl h
Any-last P (y ∷ xs) x h = inr (Any-last P xs x h)

not_shell : (p : String) → is_some (is_provider (str p)) ≡ true → (p =~ "shell") ≡ false
unfolding is_provider string_dec
not_shell p h = elim (Bool-cases (p =~ "shell")) [
  | inr e ↦ e
  | inl e ↦
      let no : is_some (is_provider (str "shell")) ≡ true =
        subst (λ s. is_some (is_provider (str s)) ≡ true) (=~→eq p "shell" e) h in
      absurd cc
]

entry_needs_uuid :
    (u : Unicode) (v : Value) (q : String) (e : Entry)
    → entry u v ≡ some e
    → provider_of (get "provider" v) ≡ some q
    → (q =~ "shell") ≡ false
    → valid_uuid (get "uuid" v) ≡ none
    → ⊥
unfolding entry string_dec
entry_needs_uuid u v q e h f shell absent = elim (Bool-cases (is_mapping v)) [
  | inr a ↦ none_no_some (rw a at h)
  | inl a ↦ none_no_some (rw (a, f, shell, uuid_or_empty, absent) at h)
]

entry-valid_uuid :
    (u : Unicode) (v : Value) (p : String) (e : Entry)
    → entry u v ≡ some e
    → get "provider" v ≡ str p
    → (p =~ "shell") ≡ false
    → (e.closed.provider ≡ p) × (valid_uuid (get "uuid" v) ≡ some e.closed.uuid)
unfolding entry_of
entry-valid_uuid u v p e h g shell =
    let (q, f, same) = entry-entry_of u v e h in
    let is_p : q ≡ p = provider_of-same p q (subst (λ w. provider_of w ≡ some q) g f) in
    elim (Option-cases (valid_uuid (get "uuid" v))) [
      | inl absent ↦ absurd (
          entry_needs_uuid u v q e h f (subst (λ s. (s =~ "shell") ≡ false) (sym is_p) shell)
            absent)
      | inr (k, valid) ↦
          subst (λ d. (d.closed.provider ≡ p) × (valid_uuid (get "uuid" v) ≡ some d.closed.uuid))
            same (is_p, rw (valid, uuid_or_empty) refl)
    ]

-- What a close that is reported as recorded left in the ledger.
pub record_closed_session-IsOf :
    (u : Unicode) (length_of : Entry → ℕ) (fails : Bool) (cached : Value) (c : Call) (now : ℕ)
    (rows after : Ledger)
    → is_some (is_provider (str c.provider)) ≡ true
    → record_closed_session u length_of fails cached c now rows ≡ some after
    → Any (IsOf c.provider c.uuid) (recorded u after)
unfolding record_closed_session get string_dec
record_closed_session-IsOf u length_of fails cached c now rows after known h =
    let v : Value = call_value (full_call u cached c) (source_of u cached c) now in
    elim (Result-cases (record_close u length_of v rows)) [
      | inr (x, e) ↦ absurd (none_no_some (rw (e, record_closed_session) at h))
      | inl (left, e) ↦ elim (Bool-cases fails) [
        | inl f ↦ absurd (none_no_some (rw (e, f, record_closed_session) at h))
        | inr f ↦
            let ((d, x, made, holds, provider, uuid, moment), list) =
              record_close-recorded u (λ p i. true) length_of v rows left e in
            let (p, valid) =
              entry-valid_uuid u v c.provider d made refl (not_shell c.provider known) in
            subst (λ l. Any (IsOf c.provider c.uuid) (recorded u l))
              (some-injective (rw (e, f, record_closed_session) at h))
              (subst (λ xs. Any (IsOf c.provider c.uuid) xs) (sym holds)
                (Any-last (IsOf c.provider c.uuid) (recorded u rows) x.closed
                  (provider ∙ p, valid ∙ ap (λ i. some i) (sym uuid))))
      ]
    ]
