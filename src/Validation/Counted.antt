-- ===== src/Validation/Counted.antt =====
-- lib/sessionkit_inventory/validation.py: what each row of an accepted inventory adds to what is seen.
use session_kit.Base.{
  ℕ, ◌≡◌, refl, sym, subst, inl, inr, String, true, false, ◌&&◌, ◌||◌, List, Option, none, some,
  arith, if◌then◌else◌, Bool-cases, Option-cases,
}
use session_kit.Json.{Value, get, is_mapping, is_none, is_text, is_positive_int, natural, text_of}
use session_kit.Common.{valid_uuid, is_provider}
use session_kit.Common.Text.{Unicode}
use session_kit.Validation.Guard.{
  Conversation, same_conversation, Seen, same_text, add, same_number, generation_is_quarantined,
  is_proven_row, add_number, is_unknown_identity, is_exact, add_conversation, add_provider,
  guard_proven, guard_row, outside_row,
}
use session_kit.Validation.Adds.{Added, add-Added}

-- What a row is counted under.
abbrev pub row_of : Value → Option ℕ
row_of item = some (natural (get "row" item))

abbrev pub id_of : Value → Option String
id_of item = text_of (get "shpool_id_raw" item)

abbrev pub exact_conversation : Value → Option Conversation
exact_conversation item = elim (is_provider (get "provider" item)) [
  | none ↦ none
  | some p ↦ elim (valid_uuid (get "uuid" (get "identity" item))) [
    | none ↦ none
    | some uuid ↦ some (p, uuid)
  ]
]

module _ (u : Unicode) where
  abbrev pub number_of : Value → Option ℕ
  number_of item =
      if generation_is_quarantined u item || is_none (get "terminal_number" item)
      then none
      else some (natural (get "terminal_number" item))

  abbrev pub managed_conversation : Value → Option Conversation
  managed_conversation item =
      if generation_is_quarantined u item || is_text "unknown" (get "provider" item)
      then none
      else exact_conversation item

  pub add_conversation-Added :
      (p : String) (item : Value) (xs ys : List Conversation)
      → is_provider (get "provider" item) ≡ some p
      → add_conversation p (get "identity" item) xs ≡ some ys
      → Added same_conversation (exact_conversation item) xs ys
  unfolding add_conversation
  add_conversation-Added p item xs ys e h =
      elim (Option-cases (valid_uuid (get "uuid" (get "identity" item)))) [
        | inl f ↦ absurd (ground arith)
        | inr (uuid, f) ↦
            let is : exact_conversation item ≡ some (p, uuid) =
              rw (e, exact_conversation, f) refl in
            subst (λ o. Added same_conversation o xs ys) (sym is)
              (add-Added same_conversation (p, uuid) xs ys (ground arith))
      ]

  -- What a row that the guard accepts has added.
  pub record Accepted (item : Value) (s s' : Seen) : Type 0 where
    pub row : Added same_number (row_of item) s.rows s'.rows
    pub id : Added same_text (id_of item) s.ids s'.ids
    pub number : Added same_number (number_of item) s.numbers s'.numbers
    pub conversation :
        Added same_conversation (managed_conversation item) s.conversations s'.conversations

  add_number-Added :
      (item : Value) (xs ys : List ℕ)
      → generation_is_quarantined u item ≡ false
      → add_number item xs ≡ some ys
      → Added same_number (number_of item) xs ys
  unfolding add_number
  add_number-Added item xs ys q h =
      let number = get "terminal_number" item in
      elim (Bool-cases (is_none number)) [
        | inl n ↦
            let unnumbered : number_of item ≡ none = rw (q, number_of, n) refl in
            subst (λ o. Added same_number o xs ys) (sym unnumbered) (ground arith)
        | inr n ↦ elim (Bool-cases (is_positive_int number)) [
          | inr m ↦ absurd (ground arith)
          | inl m ↦
              let numbered : number_of item ≡ some (natural number) = rw (q, number_of, n) refl in
              subst (λ o. Added same_number o xs ys) (sym numbered)
                (add-Added same_number (natural number) xs ys (ground arith))
        ]
      ]

  add_provider-Added :
      (item : Value) (xs ys : List Conversation)
      → generation_is_quarantined u item ≡ false
      → add_provider item xs ≡ some ys
      → Added same_conversation (managed_conversation item) xs ys
  unfolding add_provider
  add_provider-Added item xs ys q h = elim (Bool-cases (is_text "unknown" (get "provider" item))) [
    | inl n ↦
        let unheld : managed_conversation item ≡ none = rw (q, managed_conversation, n) refl in
        subst (λ o. Added same_conversation o xs ys) (sym unheld)
          (elim (Bool-cases (is_unknown_identity item)) [
            | inl f ↦ ground arith
            | inr f ↦ absurd (ground arith)
          ])
    | inr n ↦ elim (Bool-cases (is_exact (get "identity" item))) [
      | inr m ↦ absurd (ground arith)
      | inl m ↦ elim (Option-cases (is_provider (get "provider" item))) [
        | inr (p, f) ↦
            let held : managed_conversation item ≡ exact_conversation item =
              rw (q, managed_conversation, n) refl in
            subst (λ o. Added same_conversation o xs ys) (sym held)
              (add_conversation-Added p item xs ys f (ground arith))
        | inl f ↦
            let unheld : managed_conversation item ≡ none =
              rw (q, managed_conversation, n, exact_conversation, f) refl in
            subst (λ o. Added same_conversation o xs ys) (sym unheld)
              (elim (Bool-cases (
                is_text "shell" (get "provider" item)
                && is_none (get "uuid" (get "identity" item)))) [
                  | inl g ↦ ground arith
                  | inr g ↦ absurd (ground arith)
                ])
      ]
    ]
  ]

  -- What `guard_proven` adds to the numbers and to the conversations.
  abbrev Counted : Value → List ℕ → List String → Seen → Seen → Type 0
  Counted item rows ids s s' =
      (s'.rows ≡ rows)
      × (s'.ids ≡ ids)
      × Added same_number (number_of item) s.numbers s'.numbers
      × Added same_conversation (managed_conversation item) s.conversations s'.conversations

  quarantined-Counted :
      (item : Value) (rows : List ℕ) (ids : List String) (s : Seen)
      → generation_is_quarantined u item ≡ true
      → Counted item rows ids s (record s { rows = rows; ids = ids })
  quarantined-Counted item rows ids s q =
      rw (q, number_of, managed_conversation) (refl, refl, refl, refl)

  guard_proven-Added :
      (raw_id : String) (item : Value) (rows : List ℕ) (ids : List String) (s s' : Seen)
      → guard_proven u raw_id item rows ids s ≡ some s'
      → Counted item rows ids s s'
  unfolding guard_proven
  guard_proven-Added raw_id item rows ids s s' h =
      elim (Bool-cases (generation_is_quarantined u item)) [
        | inl q ↦
            subst (Counted item rows ids s) (ground arith) (quarantined-Counted item rows ids s q)
        | inr q ↦ elim (Bool-cases (is_proven_row u raw_id item)) [
          | inr m ↦ absurd (ground arith)
          | inl m ↦ elim (Option-cases (add_number item s.numbers)) [
            | inl f ↦ absurd (ground arith)
            | inr (numbers, f) ↦ elim (Option-cases (add_provider item s.conversations)) [
              | inl g ↦ absurd (ground arith)
              | inr (conversations, g) ↦ subst (Counted item rows ids s) (ground arith) (
                refl,
                refl,
                add_number-Added item s.numbers numbers q f,
                add_provider-Added item s.conversations conversations q g,
              )
            ]
          ]
        ]
      ]

  pub guard_row-Accepted :
      (item : Value) (s s' : Seen) → guard_row u item s ≡ some s' → Accepted item s s'
  unfolding guard_row
  guard_row-Accepted item s s' h = elim (Option-cases (text_of (get "shpool_id_raw" item))) [
    | inl e ↦ absurd (ground arith)
    | inr (raw_id, e) ↦ elim (Bool-cases (is_mapping item && is_positive_int (get "row" item))) [
      | inr m ↦ absurd (ground arith)
      | inl m ↦ elim (Option-cases (add same_number (natural (get "row" item)) s.rows)) [
        | inl f ↦ absurd (ground arith)
        | inr (rows, f) ↦ elim (Option-cases (add same_text raw_id s.ids)) [
          | inl g ↦ absurd (ground arith)
          | inr (ids, g) ↦
              let (same_rows, same_ids, number, conversation) =
                guard_proven-Added raw_id item rows ids s s' (ground arith) in
              record {
                row =
                    subst (Added same_number (row_of item) s.rows) (sym same_rows)
                      (add-Added same_number (natural (get "row" item)) s.rows rows f);
                id = subst (Added same_text (id_of item) s.ids) (sym same_ids) (
                    subst (λ o. Added same_text o s.ids ids) (sym e)
                      (add-Added same_text raw_id s.ids ids g));
                number = number;
                conversation = conversation;
              }
        ]
      ]
    ]
  ]

  pub outside_row-Added :
      (item : Value) (xs ys : List Conversation)
      → outside_row item xs ≡ some ys
      → Added same_conversation (exact_conversation item) xs ys
  unfolding outside_row
  outside_row-Added item xs ys h =
      elim (Bool-cases
        (is_mapping item && is_mapping (get "identity" item) && is_exact (get "identity" item))) [
          | inr m ↦ absurd (ground arith)
          | inl m ↦ elim (Option-cases (is_provider (get "provider" item))) [
            | inl f ↦ absurd (ground arith)
            | inr (p, f) ↦ add_conversation-Added p item xs ys f (ground arith)
          ]
        ]
