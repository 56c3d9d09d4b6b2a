-- ===== src/Validation/Exact.antt =====
-- validation.py, `strict_live_inventory`: the conversations inside shpool and outside it.
use session_kit.Base.{
  ◌≡◌, refl, sym, subst, inl, inr, String, Bool, true, ◌&&◌, List, [], ◌∷◌, ◌++◌, none, some, arith,
  ℕ, all_of, Bool-cases, Option-cases,
}
use session_kit.Json.{Value, get, is_none, is_text, text_of, elements}
use session_kit.Common.{is_provider}
use session_kit.Common.Text.{Unicode}
use session_kit.Validation.Guard.{
  Conversation, same_conversation, follows_policy, outside_row, outside_rows, guard_live_inventory,
}
use session_kit.Validation.Strict.{is_int, strict_row, strict_rows, strict_live_inventory}
use session_kit.Validation.Adds.{Added, AllNew, push, keys, run-AllNew}
use session_kit.Validation.Counted.{exact_conversation, add_conversation-Added, outside_row-Added}

AllNew-append :
    (xs ks ls : List Conversation)
    → AllNew same_conversation xs ks
    → AllNew same_conversation (push ks xs) ls
    → AllNew same_conversation xs (ks ++ ls)
AllNew-append xs [] ls a b = b
AllNew-append xs (k ∷ ks) ls a b = (a.0, AllNew-append (k ∷ xs) ks ls a.1 b)

module _ (u : Unicode) where
  strict_tests : String → Value → Bool
  strict_tests raw_id item =
      let identity = get "identity" item in
      let shell = get "shpool_shell" item in
      all_of (
        is_text raw_id (get "shpool_id" item)
        ∷ follows_policy u item
        ∷ is_text "exact" (get "confidence" identity)
        ∷ is_int (get "pid" identity)
        ∷ is_int (get "process_start_ticks" identity)
        ∷ is_int (get "pid" shell)
        ∷ is_int (get "process_start_ticks" shell)
        ∷ [])

  strict_row-Added :
      (item : Value) (xs ys : List Conversation)
      → strict_row u item xs ≡ some ys
      → Added same_conversation (exact_conversation item) xs ys
  unfolding strict_row strict_tests
  strict_row-Added item xs ys h = elim (Option-cases (text_of (get "shpool_id_raw" item))) [
    | inl e ↦ absurd (ground arith)
    | inr (raw_id, e) ↦ elim (Bool-cases (strict_tests raw_id item)) [
      | inr m ↦ absurd (ground arith)
      | inl m ↦ elim (Option-cases (is_provider (get "provider" item))) [
        | inr (p, f) ↦ add_conversation-Added u p item xs ys f (ground arith)
        | inl f ↦
            let unheld : exact_conversation item ≡ none = rw (exact_conversation, f) refl in
            subst (λ o. Added same_conversation o xs ys) (sym unheld)
              (elim (Bool-cases (
                is_text "shell" (get "provider" item)
                && is_none (get "uuid" (get "identity" item)))) [
                  | inl g ↦ ground arith
                  | inr g ↦ absurd (ground arith)
                ])
      ]
    ]
  ]

  strict_live_inventory-passes :
      (schema_version : ℕ) (inventory : Value)
      → strict_live_inventory u schema_version inventory ≡ true
      → (seen away : List Conversation) × (strict_rows u (elements (get "sessions" inventory)) []
          ≡ some seen)
        × (outside_rows (elements (get "outside_agents" inventory)) seen ≡ some away)
        × (guard_live_inventory u schema_version inventory ≡ true)
  unfolding strict_live_inventory
  strict_live_inventory-passes schema_version inventory h =
      elim (Option-cases (strict_rows u (elements (get "sessions" inventory)) [])) [
        | inl e ↦ absurd (ground arith)
        | inr (seen, e) ↦
            elim (Option-cases (outside_rows (elements (get "outside_agents" inventory)) seen)) [
              | inl f ↦ absurd (ground arith)
              | inr (away, f) ↦ (seen, away, e, f, ground arith)
            ]
      ]

-- In an inventory that passes the strict rules, which include the guard's, no exact conversation is
-- listed twice among the sessions and the providers outside shpool together.
pub strict_live_inventory-AllNew :
    (u : Unicode) (schema_version : ℕ) (inventory : Value)
    → strict_live_inventory u schema_version inventory ≡ true
    → (guard_live_inventory u schema_version inventory ≡ true)
      × AllNew same_conversation [] (
          keys exact_conversation (elements (get "sessions" inventory))
          ++ keys exact_conversation (elements (get "outside_agents" inventory)))
strict_live_inventory-AllNew u schema_version inventory h =
    let (seen, away, ran, went, guarded) =
      strict_live_inventory-passes u schema_version inventory h in
    let (inside, pushed) =
      run-AllNew same_conversation (strict_row u) (λ s. s) exact_conversation (strict_row-Added u)
        (elements (get "sessions" inventory)) [] seen ran in
    let (outside, _) =
      run-AllNew same_conversation outside_row (λ s. s) exact_conversation (outside_row-Added u)
        (elements (get "outside_agents" inventory)) seen away went in
    (
      guarded,
      AllNew-append [] _ _ inside (
          subst
            (λ s.
              AllNew same_conversation s
                (keys exact_conversation (elements (get "outside_agents" inventory))))
            pushed outside),
    )
