-- ===== src/Terminal/Quarantine.antt =====
-- lib/sessionkit_inventory/validation.py: the row of a session whose shell is gone, which may be
-- left without a number.
use Prim.Native.String.{◌++◌}
use session_kit.Base.{String, Bool, true, false, ◌&&◌, not, [], ◌∷◌, none, some, ◌=~◌, all_of, any}
use session_kit.Json.{
  Value, str, get, is_mapping, is_list, is_none, is_false, is_text, is_positive_int, elements,
}
use session_kit.Common.Text.{Unicode, clean_text, shpool_id_mutation_policy}

-- `shpool_id_mutation_policy(raw_id) == (True, None)`
abbrev pub policy_allows : Unicode → Value → Bool
policy_allows u raw =
    let (allowed, reason) = shpool_id_mutation_policy u raw in
    allowed && (elim reason [ none ↦ true | some _ ↦ false ])

-- The diagnostic that the collector writes for a row with no process.
abbrev expected_diagnostic : Unicode → Value → String
expected_diagnostic u (str raw) = "expected one daemon child for " ++ (u.repr raw ++ ", found 0")
expected_diagnostic u _ = ""

-- `raw_id == item.get("shpool_id")` for a text.
abbrev pub same_text : Value → Value → Bool
same_text (str s) v = is_text s v
same_text _ v = false

abbrev nonempty_text : Value → Bool
nonempty_text (str s) = not (s =~ "")
nonempty_text _ = false

unfoldable pub missing_shell_generation_is_quarantinable : Unicode → Value → Bool
missing_shell_generation_is_quarantinable u item =
    let identity = get "identity" item in
    let recovery = get "recovery" item in
    let raw_id = get "shpool_id_raw" item in
    let diagnostics = get "diagnostics" item in
    all_of (
      is_text "unknown" (get "provider" item)
      ∷ is_text "unknown" (get "display_provider" item)
      ∷ is_text "ready" (get "availability" item)
      ∷ (u.casefold (clean_text u (get "shpool_status" item) 32) =~ "disconnected")
      ∷ nonempty_text raw_id
      ∷ same_text raw_id (get "shpool_id" item)
      ∷ policy_allows u raw_id
      ∷ is_positive_int (get "started_at_unix_ms" item)
      ∷ is_none (get "shpool_shell" item)
      ∷ is_mapping identity
      ∷ is_text "unknown" (get "confidence" identity)
      ∷ is_none (get "uuid" identity)
      ∷ is_none (get "pid" identity)
      ∷ is_none (get "process_start_ticks" identity)
      ∷ is_text "none" (get "provenance" identity)
      ∷ is_mapping recovery
      ∷ is_false (get "available" recovery)
      ∷ is_none (get "provider" recovery)
      ∷ is_none (get "uuid" recovery)
      ∷ not (is_mapping (get "_terminal_identity_hint" item))
      ∷ is_list diagnostics
      ∷ any (is_text (expected_diagnostic u raw_id)) (elements diagnostics)
      ∷ [])
