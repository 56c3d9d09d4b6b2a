-- ===== src/Validation/Guard.antt =====
-- lib/sessionkit_inventory/validation.py: `guard_live_inventory` and `strict_live_inventory`. The
-- local sets are lists; a loop that ends with `return False` gives `none`.
use session_kit.Base.{
  ℕ, zero, suc, String, Bool, true, false, ◌&&◌, ◌||◌, not, List, [], ◌∷◌, Option, none, some, any,
  contains, length, leb, ◌=~◌, all_of, if◌then◌else◌,
}
use session_kit.Base.Int.{pos}
use session_kit.Json.{
  Value, int, get, is_mapping, is_list, is_none, is_true, is_false, is_text, is_positive_int,
  natural, text_of, truthy, elements, equal,
}
use session_kit.Common.{valid_uuid, is_provider}
use session_kit.Common.Text.{Unicode, shpool_id_mutation_policy}
use session_kit.Terminal.Quarantine.{missing_shell_generation_is_quarantinable}

-- A conversation: its provider and its UUID.
abbrev pub Conversation : Type 0
Conversation = String × String

abbrev pub same_conversation : Conversation → Conversation → Bool
same_conversation a b = a.0 =~ b.0 && a.1 =~ b.1

-- The four sets of the loop over the sessions.
pub record Seen : Type 0 where
  pub rows : List ℕ
  pub numbers : List ℕ
  pub ids : List String
  pub conversations : List Conversation

abbrev pub same_text : String → String → Bool
same_text a b = a =~ b

-- `x in xs`, else `xs` with `x`.
abbrev pub add {ℓ} : {A : Type ℓ} → (A → A → Bool) → A → List A → Option (List A)
add same x xs = if any (same x) xs then none else some (x ∷ xs)

abbrev pub same_number : ℕ → ℕ → Bool
same_number a b = contains a (b ∷ [])

-- A loop that a row may end with `return False`.
abbrev pub run {ℓ} : {S : Type ℓ} → (Value → S → Option S) → List Value → S → Option S
run step [] s = some s
run step (item ∷ rest) s = elim (step item s) [ none ↦ none | some next ↦ run step rest next ]

-- A process that is named exactly: its PID and its start.
abbrev pub is_generation : Value → Bool
is_generation v = is_positive_int (get "pid" v) && is_positive_int (get "process_start_ticks" v)

abbrev has_reason : String → Value → Bool
has_reason reason item =
    is_none (get "terminal_number" item)
    && is_false (get "mutation_allowed" item)
    && is_text reason (get "mutation_rejection_reason" item)

abbrev is_reason : Option String → Value → Bool
is_reason none v = is_none v
is_reason (some reason) v = is_text reason v

-- The terminal numbers after this row.
unfoldable pub add_number : Value → List ℕ → Option (List ℕ)
add_number item numbers =
    let number = get "terminal_number" item in
    if is_none number
    then some numbers
    else if is_positive_int number
    then add same_number (natural number) numbers
    else none

unfoldable pub is_unknown_identity : Value → Bool
is_unknown_identity item =
    let identity = get "identity" item in
    let shell = get "shpool_shell" item in
    all_of (
      is_text "unknown" (get "confidence" identity)
      ∷ is_none (get "uuid" identity)
      ∷ equal (get "pid" identity) (get "pid" shell)
      ∷ equal (get "process_start_ticks" identity) (get "process_start_ticks" shell)
      ∷ [])

abbrev pub is_exact : Value → Bool
is_exact identity = is_text "exact" (get "confidence" identity) && is_generation identity

-- The exact conversation of a provider's row joins the set, if it is new.
unfoldable pub add_conversation : String → Value → List Conversation → Option (List Conversation)
add_conversation provider identity seen = elim (valid_uuid (get "uuid" identity)) [
  | none ↦ none
  | some uuid ↦ add same_conversation (provider, uuid) seen
]

-- The conversations after this row.
unfoldable pub add_provider : Value → List Conversation → Option (List Conversation)
add_provider item seen =
    let provider = get "provider" item in
    let identity = get "identity" item in
    if is_text "unknown" provider
    then (if is_unknown_identity item then some seen else none)
    else if not (is_exact identity)
    then none
    else elim (is_provider provider) [
      | some p ↦ add_conversation p identity seen
      | none ↦ if is_text "shell" provider && is_none (get "uuid" identity) then some seen else none
    ]

-- A provider outside shpool.
unfoldable pub outside_row : Value → List Conversation → Option (List Conversation)
outside_row item seen =
    if is_mapping item && is_mapping (get "identity" item) && is_exact (get "identity" item)
    then (elim (is_provider (get "provider" item)) [
      | none ↦ none
      | some p ↦ add_conversation p (get "identity" item) seen
    ])
    else none

abbrev pub outside_rows : List Value → List Conversation → Option (List Conversation)
outside_rows = run outside_row

abbrev pub is_some {ℓ} : {A : Type ℓ} → Option A → Bool
is_some none = false
is_some (some a) = true

-- `rows == set(range(1, n + 1))`
abbrev pub covers : ℕ → List ℕ → Bool
covers zero rows = true
covers (suc n) rows = contains (suc n) rows && covers n rows

abbrev pub all_within : ℕ → List ℕ → Bool
all_within n [] = true
all_within n (r ∷ rows) = leb 1 r && leb r n && all_within n rows

unfoldable pub is_live : ℕ → Value → Bool
is_live schema_version inventory =
    let warnings = get "warnings" inventory in
    let generation = get "daemon_generation" inventory in
    all_of (
      is_mapping inventory
      ∷ equal (get "schema_version" inventory) (int (pos schema_version))
      ∷ is_text "live" (get "source" inventory)
      ∷ is_false (get "stale" inventory)
      ∷ is_list warnings
      ∷ not (truthy warnings)
      ∷ is_mapping generation
      ∷ is_generation generation
      ∷ is_list (get "sessions" inventory)
      ∷ is_list (get "outside_agents" inventory)
      ∷ [])

abbrev pub nothing_seen : Seen
nothing_seen = record { rows = []; numbers = []; ids = []; conversations = [] }

module _ (u : Unicode) where
  -- `_generation_is_quarantined`
  unfoldable pub generation_is_quarantined : Value → Bool
  generation_is_quarantined item =
      (missing_shell_generation_is_quarantinable u item
        && has_reason "missing-shell-generation" item)
      || has_reason "unprovable-generation" item

  -- `mutation_allowed` and the reason are those of the policy.
  unfoldable pub follows_policy : Value → Bool
  follows_policy item =
      let (allowed, reason) = shpool_id_mutation_policy u (get "shpool_id_raw" item) in
      (if allowed
        then is_true (get "mutation_allowed" item)
        else is_false (get "mutation_allowed" item))
      && is_reason reason (get "mutation_rejection_reason" item)

  unfoldable pub is_proven_row : String → Value → Bool
  is_proven_row raw_id item = all_of (
      not (raw_id =~ "")
      ∷ is_text raw_id (get "shpool_id" item)
      ∷ follows_policy item
      ∷ is_mapping (get "identity" item)
      ∷ is_mapping (get "shpool_shell" item)
      ∷ is_generation (get "shpool_shell" item)
      ∷ [])

  -- A row that is quarantined is only placed; any other has to be proven.
  unfoldable pub guard_proven : String → Value → List ℕ → List String → Seen → Option Seen
  guard_proven raw_id item rows ids seen =
      if generation_is_quarantined item
      then some (record seen { rows = rows; ids = ids })
      else if not (is_proven_row raw_id item)
      then none
      else elim (add_number item seen.numbers) [
        | none ↦ none
        | some numbers ↦ elim (add_provider item seen.conversations) [
          | none ↦ none
          | some conversations ↦
              some (record {
                rows = rows;
                ids = ids;
                numbers = numbers;
                conversations = conversations;
              })
        ]
      ]

  unfoldable pub guard_row : Value → Seen → Option Seen
  guard_row item seen = elim (text_of (get "shpool_id_raw" item)) [
    | none ↦ none
    | some raw_id ↦
        if is_mapping item && is_positive_int (get "row" item)
        then (elim (add same_number (natural (get "row" item)) seen.rows) [
          | none ↦ none
          | some rows ↦ elim (add same_text raw_id seen.ids) [
            | none ↦ none
            | some ids ↦ guard_proven raw_id item rows ids seen
          ]
        ])
        else none
  ]

  abbrev pub guard_rows : List Value → Seen → Option Seen
  guard_rows = run guard_row

  unfoldable pub guard_live_inventory : ℕ → Value → Bool
  guard_live_inventory schema_version inventory =
      let sessions = elements (get "sessions" inventory) in
      is_live schema_version inventory && (elim (guard_rows sessions nothing_seen) [
        | none ↦ false
        | some seen ↦
            is_some (outside_rows (elements (get "outside_agents" inventory)) [])
            && covers (length sessions) seen.rows
            && all_within (length sessions) seen.rows
      ])
