-- ===== src/Validation/Unique.antt =====
-- validation.py, `guard_live_inventory`: the rows, sessions and conversations that it lets pass.
use session_kit.Base.{
  ℕ, zero, suc, ◌≤◌, ◌≡◌, refl, sym, ap, ◌∙◌, ◌↔◌, inl, inr, Bool, true, false, ◌||◌, List, [], ◌∷◌,
  some, arith, contains, length, leb, Bool-cases, Option-cases,
}
use session_kit.Json.{Value, get, elements}
use session_kit.Common.Text.{Unicode}
use session_kit.Validation.Guard.{
  Conversation, same_conversation, Seen, same_text, same_number, guard_row, guard_rows, outside_row,
  outside_rows, covers, all_within, nothing_seen, guard_live_inventory,
}
use session_kit.Validation.Adds.{AllNew, push, keys, run-AllNew}
use session_kit.Validation.Counted.{
  exact_conversation, guard_row-Accepted, id_of, managed_conversation, number_of, outside_row-Added,
  row_of,
}

contains-push :
    (k : ℕ) (ks xs : List ℕ) → contains k (push ks xs) ≡ (contains k ks || contains k xs)
contains-push k [] xs = refl
contains-push k (x ∷ ks) xs = ground (arith, contains-push k ks (x ∷ xs))

covers_all :
    (n k : ℕ) (rows : List ℕ) → covers n rows ≡ true → 1 ≤ k → k ≤ n → contains k rows ≡ true
covers_all zero k rows h a b = absurd (omega arith)
covers_all (suc n) k rows h a b = elim (Bool-cases (leb k n)) [
  | inl e ↦ covers_all n k rows (ground arith) a (ground arith)
  | inr e ↦ let same : k ≡ suc n = ground arith in rw same (ground arith)
]

within :
    (n k : ℕ) (rows : List ℕ)
    → all_within n rows ≡ true
    → contains k rows ≡ true
    → (1 ≤ k) × (k ≤ n)
within n k [] h c = cc
within n k (r ∷ rows) h c = elim (Bool-cases (contains k rows)) [
  | inl e ↦ within n k rows (ground arith) e
  | inr e ↦ (ground arith, ground arith)
]

-- What holds of the sessions of an accepted inventory, and of the providers outside.
pub record IsUnambiguous (u : Unicode) (sessions outside : List Value) : Type 0 where
  pub rows : AllNew same_number [] (keys row_of sessions)
  pub from_one :
      (k : ℕ) → (contains k (keys row_of sessions) ≡ true) ↔ ((1 ≤ k) × (k ≤ length sessions))
  pub ids : AllNew same_text [] (keys id_of sessions)
  pub numbers : AllNew same_number [] (keys (number_of u) sessions)
  pub conversations : AllNew same_conversation [] (keys (managed_conversation u) sessions)
  pub outside_conversations : AllNew same_conversation [] (keys exact_conversation outside)

-- What an accepted inventory has passed.
guard_live_inventory-passes :
    (u : Unicode) (schema_version : ℕ) (inventory : Value)
    → guard_live_inventory u schema_version inventory ≡ true
    → let sessions = elements (get "sessions" inventory) in
      let outside = elements (get "outside_agents" inventory) in
      (seen : Seen) × (away : List Conversation) × (guard_rows u sessions nothing_seen ≡ some seen)
      × (outside_rows outside [] ≡ some away)
      × (covers (length sessions) seen.rows ≡ true)
      × (all_within (length sessions) seen.rows ≡ true)
unfolding guard_live_inventory
guard_live_inventory-passes u schema_version inventory h =
    let sessions = elements (get "sessions" inventory) in
    let outside = elements (get "outside_agents" inventory) in
    elim (Option-cases (guard_rows u sessions nothing_seen)) [
      | inl e ↦ absurd (ground arith)
      | inr (seen, e) ↦ elim (Option-cases (outside_rows outside [])) [
        | inl f ↦ absurd (ground arith)
        | inr (away, f) ↦ (seen, away, e, f, ground arith, ground arith)
      ]
    ]

-- In an inventory that the guard accepts the rows of the sessions are exactly the numbers from one
-- to their count, each once. No session, no terminal number and no conversation is listed twice
-- among the sessions, quarantined rows aside for the last two, and no conversation twice outside.
pub guard_live_inventory-IsUnambiguous :
    (u : Unicode) (schema_version : ℕ) (inventory : Value)
    → guard_live_inventory u schema_version inventory ≡ true
    → IsUnambiguous u
        (elements (get "sessions" inventory))
        (elements (get "outside_agents" inventory))
guard_live_inventory-IsUnambiguous u schema_version inventory h =
    let sessions = elements (get "sessions" inventory) in
    let outside = elements (get "outside_agents" inventory) in
    let (seen, away, ran, went, covered, in_range) =
      guard_live_inventory-passes u schema_version inventory h in
    let accepted = guard_row-Accepted u in
    let (rows, pushed) =
      run-AllNew same_number (guard_row u) (λ s. s.rows) row_of
        (λ i s s' e. (accepted i s s' e).row) sessions nothing_seen seen ran in
    let all : (k : ℕ) → contains k seen.rows ≡ contains k (keys row_of sessions) =
      λ k. ap (contains k) pushed ∙ contains-push k (keys row_of sessions) [] ∙ ||_false _ in
    record {
      rows = rows;
      from_one = λ k. (
        λ c. within (length sessions) k seen.rows in_range (all k ∙ c),
        λ r. sym (all k) ∙ covers_all (length sessions) k seen.rows covered r.0 r.1,
      );
      ids =
          (run-AllNew same_text (guard_row u) (λ s. s.ids) id_of
            (λ i s s' e. (accepted i s s' e).id) sessions nothing_seen seen ran).0;
      numbers =
          (run-AllNew same_number (guard_row u) (λ s. s.numbers) (number_of u)
            (λ i s s' e. (accepted i s s' e).number) sessions nothing_seen seen ran).0;
      conversations =
          (run-AllNew same_conversation (guard_row u) (λ s. s.conversations)
            (managed_conversation u) (λ i s s' e. (accepted i s s' e).conversation) sessions
            nothing_seen seen ran).0;
      outside_conversations =
          (run-AllNew same_conversation outside_row (λ s. s) exact_conversation
            (outside_row-Added u) outside [] away went).0;
    }
  where
    ||_false : (b : Bool) → (b || false) ≡ b
    ||_false true = refl
    ||_false false = refl
