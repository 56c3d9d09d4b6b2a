-- ===== src/Validation/Strict.antt =====
-- lib/sessionkit_inventory/validation.py: `strict_live_inventory`.
use session_kit.Base.{
  ℕ, Bool, true, false, ◌&&◌, List, [], ◌∷◌, Option, none, some, all_of, if◌then◌else◌,
}
use session_kit.Json.{Value, int, bool, get, is_none, is_text, text_of, elements}
use session_kit.Common.{is_provider}
use session_kit.Common.Text.{Unicode}
use session_kit.Validation.Guard.{
  Conversation, run, follows_policy, add_conversation, outside_rows, is_some, guard_live_inventory,
}

-- `isinstance(v, int)`, which a `bool` is too.
abbrev pub is_int : Value → Bool
is_int (int z) = true
is_int (bool b) = true
is_int _ = false

module _ (u : Unicode) where
  -- The strict rules for a row that the guard has passed.
  unfoldable pub strict_row : Value → List Conversation → Option (List Conversation)
  strict_row item seen =
      let identity = get "identity" item in
      let shell = get "shpool_shell" item in
      elim (text_of (get "shpool_id_raw" item)) [
        | none ↦ none
        | some raw_id ↦
            if all_of (
              is_text raw_id (get "shpool_id" item)
              ∷ follows_policy u item
              ∷ is_text "exact" (get "confidence" identity)
              ∷ is_int (get "pid" identity)
              ∷ is_int (get "process_start_ticks" identity)
              ∷ is_int (get "pid" shell)
              ∷ is_int (get "process_start_ticks" shell)
              ∷ [])
            then (elim (is_provider (get "provider" item)) [
              | some p ↦ add_conversation p identity seen
              | none ↦
                  if is_text "shell" (get "provider" item) && is_none (get "uuid" identity)
                  then some seen
                  else none
            ])
            else none
      ]

  abbrev pub strict_rows : List Value → List Conversation → Option (List Conversation)
  strict_rows = run strict_row

  unfoldable pub strict_live_inventory : ℕ → Value → Bool
  strict_live_inventory schema_version inventory =
      guard_live_inventory u schema_version inventory
      && (elim (strict_rows (elements (get "sessions" inventory)) []) [
        | none ↦ false
        | some seen ↦ is_some (outside_rows (elements (get "outside_agents" inventory)) seen)
      ])
