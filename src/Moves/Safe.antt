-- ===== src/Moves/Safe.antt =====
-- lib/sessionkit_inventory/account_guard.py, `plan`: what a plan that moves has passed, and which
-- candidate it has chosen.
use session_kit.Base.{
  ℕ, ◌*◌, ◌≡◌, refl, subst, inl, inr, String, Bool, true, false, List, [], ◌∷◌, none, some, arith,
  All, All-map, Any, leb, le→leb, ltb, ltb→ge, find?, ◌=~◌, Bool-cases, Option-cases,
}
use session_kit.Json.{Value, get, is_text}
use session_kit.Common.Text.{Unicode}
use session_kit.Hops.Ledger.{Result, ok, Result-cases, max_automatic_hops}
use session_kit.Moves.Usage.{
  usage_fraction, feed_is_implausible, choice_rows, is_fresh, has_run_dry,
}
use session_kit.Moves.Blocks.{session_block_reason}
use session_kit.Moves.Plan.{
  Candidate, switch, candidate_of, is_candidate, candidates_of, sorted, verdict_of, plan_spent,
  plan_source, plan,
}
use session_kit.Moves.Sorted.{Leads, le, sorted-All, sorted-Leads}

module _ (reserve : ℕ) (source_alias : String) where
  -- A row of this account that may take the conversation.
  abbrev pub Offers : List Value → Candidate → Type 0
  Offers rows c =
      Any (λ row. (is_candidate reserve source_alias row ≡ true) × (candidate_of row ≡ c)) rows

  candidates_of-Offers :
      (rows : List Value) → All (Offers rows) (candidates_of reserve source_alias rows)
  unfolding candidates_of
  candidates_of-Offers [] = tt
  candidates_of-Offers (row ∷ rows) = elim (Bool-cases (is_candidate reserve source_alias row)) [
    | inl e ↦
        rw (candidates_of, e)
          (inl (e, refl), All-map _ _ (λ c a. inr a) (candidates_of-Offers rows))
    | inr e ↦ rw (candidates_of, e) (All-map _ _ (λ c a. inr a) (candidates_of-Offers rows))
  ]

  candidates_of-All :
      (P : Candidate → Type 0) (rows : List Value)
      → All P (candidates_of reserve source_alias rows)
      → All (λ row. is_candidate reserve source_alias row ≡ true → P (candidate_of row)) rows
  unfolding candidates_of
  candidates_of-All P [] h = tt
  candidates_of-All P (row ∷ rows) h = elim (Bool-cases (is_candidate reserve source_alias row)) [
    | inl e ↦
        let kept : candidates_of reserve source_alias (row ∷ rows)
            ≡ candidate_of row ∷ candidates_of reserve source_alias rows =
          rw (candidates_of, e) refl in
        let h' = subst (All P) kept h in (λ _. h'.0, candidates_of-All P rows h'.1)
    | inr e ↦
        let dropped : candidates_of reserve source_alias (row ∷ rows)
            ≡ candidates_of reserve source_alias rows =
          rw (candidates_of, e) refl in
        (λ t. absurd (ground arith), candidates_of-All P rows (subst (All P) dropped h))
  ]

module _ (u : Unicode) (reserve spent_line : ℕ) where
  -- The chosen account, from the sorted candidates.
  pub record Chosen (source_alias : String) (rows : List Value) (source target : String)
      : Type 0 where
    pub from : source ≡ source_alias
    pub chosen : Candidate
    pub to : chosen.alias ≡ target
    pub offered : Offers reserve source_alias rows chosen
    pub best :
        All
          (λ row.
            is_candidate reserve source_alias row ≡ true → le chosen (candidate_of row) ≡ true)
          rows

  verdict_of-Chosen :
      (source_alias : String) (rows : List Value) (cs ds : List Candidate) (source target : String)
      → All (Offers reserve source_alias rows) ds
      → Leads ds (candidates_of reserve source_alias rows)
      → verdict_of source_alias ds ≡ switch source target cs
      → Chosen source_alias rows source target
  verdict_of-Chosen source_alias rows cs [] source target offers leads h = cc
  verdict_of-Chosen source_alias rows cs (d ∷ ds) source target offers leads h = record {
    from = cc;
    chosen = d;
    to = cc;
    offered = offers.0;
    best = candidates_of-All reserve source_alias (λ c. le d c ≡ true) rows leads;
  }

  pub plan_spent-Chosen :
      (provider uuid : String) (session_row : Value) (source_alias : String) (rows : List Value)
      (n : ℕ) (source target : String) (cs : List Candidate)
      → plan_spent u reserve spent_line provider uuid session_row source_alias rows n
        ≡ switch source target cs
      → (n ≡ 0)
        × (session_block_reason u session_row provider uuid source_alias ≡ none)
        × Chosen source_alias rows source target
  unfolding plan_spent
  plan_spent-Chosen provider uuid session_row source_alias rows n source target cs h =
      elim (Bool-cases (leb max_automatic_hops n)) [
        | inl e ↦ absurd (ground arith)
        | inr e ↦
            elim (Option-cases (session_block_reason u session_row provider uuid source_alias)) [
              | inr (b, f) ↦ absurd (ground arith)
              | inl f ↦
                  let found = candidates_of reserve source_alias rows in
                  (
                    ground arith,
                    f,
                    verdict_of-Chosen source_alias rows cs (sorted found) source target
                        (sorted-All (Offers reserve source_alias rows) found
                          (candidates_of-Offers reserve source_alias rows))
                        (sorted-Leads found) (ground arith),
                  )
            ]
      ]

  pub plan_source-dry :
      (provider uuid : String) (session_row : Value) (source_alias : String) (rows : List Value)
      (n : ℕ) (source target : String) (cs : List Candidate)
      → plan_source u reserve spent_line provider uuid session_row source_alias rows n
        ≡ switch source target cs
      → ((row : Value) × (find? (λ r. is_text source_alias (get "alias" r)) rows ≡ some row)
          × (has_run_dry spent_line row ≡ true))
        × (plan_spent u reserve spent_line provider uuid session_row source_alias rows n
            ≡ switch source target cs)
  unfolding plan_source
  plan_source-dry provider uuid session_row source_alias rows n source target cs h =
      elim (Bool-cases (source_alias =~ "")) [
        | inl e ↦ absurd (ground arith)
        | inr e ↦ elim (Option-cases (find? (λ r. is_text source_alias (get "alias" r)) rows)) [
          | inl f ↦ absurd (ground arith)
          | inr (row, f) ↦ elim (Option-cases (usage_fraction (get "u7d" row))) [
            | inl g ↦ absurd (ground arith)
            | inr (weekly, g) ↦ elim (Bool-cases (ltb weekly (spent_line * 10000))) [
              | inl m ↦ absurd (ground arith)
              | inr m ↦ (
                (
                  row,
                  f,
                  rw (has_run_dry, g)
                      (le→leb (spent_line * 10000) weekly (ltb→ge weekly (spent_line * 10000) m)),
                ),
                ground arith,
              )
            ]
          ]
        ]
      ]

  pub plan_reached :
      (hops : Result ℕ) (off : Bool) (choices : Value) (provider uuid : String)
      (session_row : Value) (source_alias source target : String) (cs : List Candidate)
      → plan u reserve spent_line hops off choices provider uuid session_row source_alias
        ≡ switch source target cs
      → (n : ℕ) × (hops ≡ ok n)
        × (off ≡ false)
        × (is_fresh choices ≡ true)
        × (feed_is_implausible (choice_rows choices) ≡ false)
        × (plan_source u reserve spent_line provider uuid session_row source_alias
              (choice_rows choices)
              n
            ≡ switch source target cs)
  unfolding plan
  plan_reached hops off choices provider uuid session_row source_alias source target cs h =
      elim (Result-cases hops) [
        | inr (x, e) ↦ absurd (ground arith)
        | inl (n, e) ↦ elim (Bool-cases off) [
          | inl a ↦ absurd (ground arith)
          | inr a ↦ elim (Bool-cases (is_fresh choices)) [
            | inr b ↦ absurd (ground arith)
            | inl b ↦ elim (Bool-cases (feed_is_implausible (choice_rows choices))) [
              | inl c ↦ absurd (ground arith)
              | inr c ↦ (n, e, a, b, c, ground arith)
            ]
          ]
        ]
      ]
