-- ===== src/Terminal/Errors.antt =====
-- terminal.py, `apply_terminal_numbers`: the errors that an allocating run raises.
use session_kit.Base.{
  ℕ, ◌≡◌, refl, ap, ◌∙◌, ◌⊎◌, subst, inl, inr, String, true, List, [], ◌∷◌, Option, none, some,
  arith, contains, All, Bool-cases, Option-cases,
}
use session_kit.Json.{Value, is_mapping}
use session_kit.Common.Text.{Unicode}
use session_kit.Terminal.Registry.{Registry, Retirements}
use session_kit.Terminal.Validator.{validate_terminal_registry}
use session_kit.Terminal.Number.{
  Error, registry_refused, two_sessions_one_number, err, Result-cases, Pass, Mode, Keys, choose,
  claim, quarantine_reason, keys_of, number_row, number_rows, start_pass, mode_of, kept_bindings,
  apply_terminal_numbers,
}

claim-error :
    (m : Mode) (k : Keys) (g : String) (n : Option ℕ) (p : Pass) (e : Error)
    → k.generation ≡ some g
    → claim m k n p ≡ err e
    → e ≡ two_sessions_one_number
unfolding claim
claim-error m k g none p e known h = cc
claim-error m k g (some n) p e known h = elim (Bool-cases (contains n p.active)) [
  | inl c ↦ ground arith
  | inr c ↦ elim (Bool-cases m.allocate) [
    | inl a ↦ absurd (ground arith)
    | inr a ↦ absurd (ground arith)
  ]
]

-- An allocating run goes past a row without a shell generation.
unproven_is_quarantined :
    (u : Unicode) (m : Mode) (item : Value)
    → m.allocate ≡ true
    → quarantine_reason u m none item ≡ none
    → ⊥
unfolding quarantine_reason
unproven_is_quarantined u m item a h = ground arith

module _ (u : Unicode) (digest : Value → String) (boot_id : String) (m : Mode)
    (allocates : m.allocate ≡ true) where
  number_row-error :
      (item : Value) (p : Pass) (e : Error)
      → is_mapping item ≡ true
      → number_row u digest boot_id m item p ≡ err e
      → e ≡ two_sessions_one_number
  unfolding number_row
  number_row-error item p e mapping h =
      let k = keys_of u digest boot_id m item in
      elim (Option-cases (quarantine_reason u m k.generation item)) [
        | inr (reason, f) ↦ absurd (ground arith)
        | inl f ↦ elim (Result-cases (claim m k (choose m k p).0 (choose m k p).1)) [
          | inl (r, c) ↦ absurd (ground arith)
          | inr (x, c) ↦ elim (Option-cases k.generation) [
            | inr (g, known) ↦
                claim-error m k g (choose m k p).0 (choose m k p).1 e known (ground arith)
            | inl unknown ↦ absurd (
                unproven_is_quarantined u m item allocates
                  (subst (λ o. quarantine_reason u m o item ≡ none) unknown f))
          ]
        ]
      ]

  number_rows-error :
      (items : List Value) (p : Pass) (e : Error)
      → All (λ item. is_mapping item ≡ true) items
      → number_rows u digest boot_id m items p ≡ err e
      → e ≡ two_sessions_one_number
  unfolding number_rows
  number_rows-error [] p e mappings h = cc
  number_rows-error (item ∷ rest) p e mappings h =
      elim (Result-cases (number_row u digest boot_id m item p)) [
        | inr (x, f) ↦ number_row-error item p e mappings.0 (ground arith)
        | inl (r, f) ↦ elim (Result-cases (number_rows u digest boot_id m rest r.1)) [
          | inr (x, g) ↦ number_rows-error rest r.1 e mappings.1 (ground arith)
          | inl (s, g) ↦ absurd (ground arith)
        ]
      ]

-- An allocating run over rows that are objects raises two errors only: that of the validator, where it
-- refuses the registry, and else that two of the rows have the same number.
pub apply_terminal_numbers-error :
    (u : Unicode) (digest : Value → String) (boot_id : String) (now quarantine : ℕ)
    (retired : Option Retirements) (rows : List Value) (schema_version : ℕ) (raw : Value)
    (e : Error)
    → All (λ item. is_mapping item ≡ true) rows
    → apply_terminal_numbers u digest boot_id now quarantine true retired rows
        (validate_terminal_registry schema_version boot_id raw)
      ≡ err e
    → ((validate_terminal_registry schema_version boot_id raw ≡ none) × (e ≡ registry_refused))
      ⊎ ((r : Registry) × (validate_terminal_registry schema_version boot_id raw ≡ some r)
          × (e ≡ two_sessions_one_number))
unfolding apply_terminal_numbers
apply_terminal_numbers-error u digest boot_id now quarantine retired rows schema_version raw e
      mappings h =
    elim (Option-cases (validate_terminal_registry schema_version boot_id raw)) [
      | inl v ↦ inl (v, ground arith)
      | inr (r, v) ↦
          let start =
            start_pass (kept_bindings u digest boot_id now quarantine true retired r)
              r.next_number in
          elim (Result-cases (number_rows u digest boot_id (mode_of true retired) rows start)) [
            | inl (s, f) ↦ absurd (ground arith)
            | inr (x, f) ↦
                let same : x ≡ e = ground arith in
                inr (
                  r,
                  v,
                  number_rows-error u digest boot_id (mode_of true retired) refl rows start e
                      mappings (f ∙ ap err same),
                )
          ]
    ]
