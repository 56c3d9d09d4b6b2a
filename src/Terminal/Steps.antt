-- ===== src/Terminal/Steps.antt =====
-- terminal.py: what one row does to the loop's variables: the outcomes of `choose`, `claim` and
-- `number_row`, and the induction over the rows.
use session_kit.Base.{
  ℕ, ◌≡◌, refl, ◌⊎◌, inl, inr, String, Bool, true, List, [], ◌∷◌, Option, none, some, arith,
  Bool-cases, Option-cases,
}
use session_kit.Json.{Value, is_mapping}
use session_kit.Common.Text.{Unicode}
use session_kit.Terminal.Number.{
  ok, ok-injective, Result-cases, ◌>>=◌, Pass, Mode, Keys, number_of, choose, claim, with_number,
  quarantined, quarantine_reason, keys_of, number_row, number_rows, Outcome, mode_of, start_pass,
  kept_bindings, outcome, apply_terminal_numbers,
}
use session_kit.Terminal.Registry.{Registry, Retirements}
use session_kit.Terminal.Rows.{row_number, row_number-with_number, row_number-quarantined}
use session_kit.Terminal.Choices.{Choice, Choice-none, Claimed, choose-Choice}

pub claim-Claimed :
    (m : Mode) (k : Keys) (x : ℕ) (q r : Pass) → claim m k (some x) q ≡ ok r → Claimed m k x q r
unfolding claim
claim-Claimed m k x q r h = elim (Bool-cases m.allocate) [
  | inr no_alloc ↦ ground arith
  | inl alloc ↦ elim (Option-cases k.generation) [
    | inl e ↦ absurd (ground arith)
    | inr (g, e) ↦ record {
      was_free = ground arith;
      active = ground arith;
      reserved = ground arith;
      next_number = ground arith;
      bindings = inr (g, e, alloc, ground arith);
    }
  ]
]

module _ (u : Unicode) (digest : Value → String) (boot_id : String) (m : Mode) where
  -- A row of an accepted run either has no number and changes nothing, or has claimed its choice.
  pub data RowStep (item : Value) (p : Pass) (item' : Value) (p' : Pass) : Type 0 where
    skipped :
        ((reason : String) × (quarantine_reason u m
                (keys_of u digest boot_id m item).generation
                item
              ≡ some reason))
          ⊎ (number_of (keys_of u digest boot_id m item).ai p.bindings ≡ none)
        → row_number item' ≡ none
        → p' ≡ p
        → RowStep item p item' p'
    numbered :
        (x : ℕ) (q : Pass)
        → row_number item' ≡ some x
        → Choice m (keys_of u digest boot_id m item) p (some x) q
        → Claimed m (keys_of u digest boot_id m item) x q p'
        → RowStep item p item' p'

  claimed :
      (item : Value) (p : Pass) (r : Value × Pass)
      → is_mapping item ≡ true
      → (n : Option ℕ) (q : Pass) → Choice m (keys_of u digest boot_id m item) p n q
      → (claim m (keys_of u digest boot_id m item) n q >>= λ c. ok (with_number n item, c)) ≡ ok r
      → RowStep item p r.0 r.1
  claimed item p r mapping none q c h =
      let same : (with_number none item, q) ≡ r = unfold claim in ok-injective h in
      rw (← same) (
        skipped (inr (Choice-none c).0) (row_number-with_number none item mapping)
          (Choice-none c).1)
  claimed item p r mapping (some x) q c h =
      elim (Result-cases (claim m (keys_of u digest boot_id m item) (some x) q)) [
        | inr (e, failed) ↦ absurd (ground arith)
        | inl (p', done) ↦
            let same : (with_number (some x) item, p') ≡ r = ground arith in
            rw (← same) (
              numbered x q (row_number-with_number (some x) item mapping) c
                (claim-Claimed m _ x q p' done))
      ]

  number_row-RowStep :
      (item : Value) (p : Pass) (r : Value × Pass)
      → number_row u digest boot_id m item p ≡ ok r
      → RowStep item p r.0 r.1
  unfolding number_row
  number_row-RowStep item p r h = elim (Bool-cases (is_mapping item)) [
    | inr no_map ↦ absurd (ground arith)
    | inl mapping ↦ elim (Option-cases (quarantine_reason u m ks.generation item)) [
      | inr (reason, e) ↦
          let same : (quarantined reason item, p) ≡ r = ground arith in
          rw (← same) (skipped (inl (reason, e)) (row_number-quarantined reason item) refl)
      | inl e ↦
          claimed item p r mapping (choose m ks p).0 (choose m ks p).1 (choose-Choice m ks p)
            (ground arith)
    ]
  ]
    where
      ks : Keys
      ks = keys_of u digest boot_id m item

  -- The rows of an accepted run, one step each.
  pub data Rows : List Value → Pass → List Value → Pass → Type 0 where
    done : {p : Pass} → Rows [] p [] p
    step :
        {item item' : Value} {rest rest' : List Value} {p p1 p' : Pass}
        → RowStep item p item' p1
        → Rows rest p1 rest' p'
        → Rows (item ∷ rest) p (item' ∷ rest') p'

  pub number_rows-Rows :
      (rows : List Value) (p : Pass) (s : List Value × Pass)
      → number_rows u digest boot_id m rows p ≡ ok s
      → Rows rows p s.0 s.1
  unfolding number_rows
  number_rows-Rows [] p s h = let same : ([], p) ≡ s = ok-injective h in rw (← same) done
  number_rows-Rows (item ∷ rest) p s h =
      elim (Result-cases (number_row u digest boot_id m item p)) [
        | inr (e, failed) ↦ absurd (ground arith)
        | inl (r, first) ↦ elim (Result-cases (number_rows u digest boot_id m rest r.1)) [
          | inr (e, failed) ↦ absurd (ground arith)
          | inl (t, others) ↦
              let same : (r.0 ∷ t.0, t.1) ≡ s = ground arith in
              rw (← same)
                (step (number_row-RowStep item p r first) (number_rows-Rows rest r.1 t others))
        ]
      ]

-- What an accepted run has done: its rows, from the pruned bindings on, and its outcome.
module _ (u : Unicode) (digest : Value → String) (boot_id : String) (now quarantine : ℕ) where
  pub record Ran (allocate : Bool) (retired : Option Retirements) (rows : List Value) (r : Registry)
      (o : Outcome) : Type 0 where
    pub sessions : List Value
    pub last : Pass
    pub rows_done :
        Rows u digest boot_id
          (mode_of allocate retired)
          rows
          (start_pass
            (kept_bindings u digest boot_id now quarantine allocate retired r)
            r.next_number)
          sessions
          last
    pub result : o ≡ outcome u digest boot_id now quarantine allocate retired r sessions last

  pub apply_terminal_numbers-Ran :
      (allocate : Bool) (retired : Option Retirements) (rows : List Value) (r : Registry)
      (o : Outcome)
      → apply_terminal_numbers u digest boot_id now quarantine allocate retired rows (some r) ≡ ok o
      → Ran allocate retired rows r o
  unfolding apply_terminal_numbers
  apply_terminal_numbers-Ran allocate retired rows r o h =
      elim (Result-cases (
        number_rows u digest boot_id (mode_of allocate retired) rows (
          start_pass (kept_bindings u digest boot_id now quarantine allocate retired r)
            r.next_number))) [
              | inr (e, failed) ↦ absurd (ground arith)
              | inl (s, e) ↦ record {
                sessions = s.0;
                last = s.1;
                rows_done = number_rows-Rows u digest boot_id _ rows _ s e;
                result = ground arith;
              }
            ]
