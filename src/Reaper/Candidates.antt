-- ===== src/Reaper/Candidates.antt =====
-- lib/sessionkit_inventory/reaper.py: `_safe_candidate` and `_phantom_candidate`. A missing
-- inventory row or process fact is `null`.
use session_kit.Base.{
  ℕ, String, Bool, false, not, [], ◌∷◌, Option, none, some, any, leb, all_of, ◌=~◌, if◌then◌else◌,
}
use session_kit.Base.Int.{pos}
use session_kit.Json.{
  Value, int, str, list, cons, nil, get, is_mapping, is_list, is_none, is_true, is_false, is_text,
  is_positive_int, natural, truthy, elements, equal,
}
use session_kit.Common.{valid_uuid, is_provider}
use session_kit.Common.Text.{Unicode, is_generated_id, contains_text}

-- The proof tuples.
pub record Exited : Type 0 where
  pub session_id : String
  pub started : Value
  pub disconnected : Value
  pub shell_pid : Value
  pub shell_ticks : Value
  pub provider : String
  pub uuid : String
  pub exit_ns : ℕ

pub data Proof : Type 0 where
  exited : Exited → Proof
  phantom : String → Value → Proof

-- `json.dumps(proof)`: a tuple is written as an array.
unfoldable pub proof_json : Proof → Value
proof_json (exited e) = list (
    cons (str e.session_id) (
      cons e.started (
        cons e.disconnected (
          cons e.shell_pid (
            cons e.shell_ticks
              (cons (str e.provider) (cons (str e.uuid) (cons (int (pos e.exit_ns)) nil))))))))
proof_json (phantom id started) = list (cons (str "phantom") (cons (str id) (cons started nil)))

module _ (u : Unicode) where
  -- `str(row.get("status", "")).casefold() == "disconnected"`: no other value's text is that word.
  abbrev pub is_disconnected : Value → Bool
  is_disconnected (str s) = u.casefold s =~ "disconnected"
  is_disconnected _ = false

  -- The tests of `_safe_candidate`, the negations of those that refuse.
  unfoldable pub is_safe : ℕ → Value → Value → Value → String → String → String → Bool
  is_safe now row item fact session_id provider uuid =
      let shell = get "shpool_shell" item in
      let recovery = get "recovery" item in
      let exited_identity = get "exited_identity" item in
      all_of (
        is_positive_int (get "provider_exited_at_monotonic_ns" item)
        ∷ is_generated_id session_id
        ∷ is_disconnected (get "status" row)
        ∷ is_positive_int (get "started_at_unix_ms" row)
        ∷ is_positive_int (get "last_disconnected_at_unix_ms" row)
        ∷ is_mapping item
        ∷ is_text session_id (get "shpool_id_raw" item)
        ∷ equal (get "started_at_unix_ms" item) (get "started_at_unix_ms" row)
        ∷ equal (get "shpool_status" item) (get "status" row)
        ∷ is_text "ready" (get "availability" item)
        ∷ is_text "shell" (get "provider" item)
        ∷ is_text "provider exited" (get "agent_status" item)
        ∷ is_false (get "needs_you" item)
        ∷ is_true (get "provider_exit_input_tracking" item)
        ∷ is_false (get "user_input_after_provider_exit" item)
        ∷ is_false (get "provider_exit_keep" item)
        ∷ leb (natural (get "provider_exited_at_monotonic_ns" item)) now
        ∷ is_mapping shell
        ∷ is_mapping fact
        ∷ is_true (get "empty" fact)
        ∷ equal (get "pid" shell) (get "shell_pid" fact)
        ∷ equal (get "process_start_ticks" shell) (get "shell_start_ticks" fact)
        ∷ is_mapping recovery
        ∷ is_true (get "available" recovery)
        ∷ is_text provider (get "provider" recovery)
        ∷ is_mapping exited_identity
        ∷ is_text "historical-exact" (get "confidence" exited_identity)
        ∷ is_text uuid (get "uuid" exited_identity)
        ∷ is_true (get "mutation_allowed" item)
        ∷ [])

  abbrev pub exited_proof : Value → Value → Value → String → String → String → Exited
  exited_proof row item fact session_id provider uuid = record {
    session_id = session_id;
    started = get "started_at_unix_ms" row;
    disconnected = get "last_disconnected_at_unix_ms" row;
    shell_pid = get "shell_pid" fact;
    shell_ticks = get "shell_start_ticks" fact;
    provider = provider;
    uuid = uuid;
    exit_ns = natural (get "provider_exited_at_monotonic_ns" item);
  }

  unfoldable pub safe_candidate : ℕ → String → Value → Value → Value → Option Exited
  safe_candidate now session_id row item fact = elim (is_provider (get "exited_provider" item)) [
    | none ↦ none
    | some provider ↦ elim (valid_uuid (get "uuid" (get "recovery" item))) [
      | none ↦ none
      | some uuid ↦
          if is_safe now row item fact session_id provider uuid
          then some (exited_proof row item fact session_id provider uuid)
          else none
    ]
  ]

  abbrev says : String → Value → Bool
  says part (str s) = contains_text s part
  says part _ = false

  unfoldable pub is_phantom : String → Value → Value → Value → Bool
  is_phantom session_id row item fact =
      let diagnostics = get "diagnostics" item in
      all_of (
        is_generated_id session_id
        ∷ is_disconnected (get "status" row)
        ∷ is_positive_int (get "started_at_unix_ms" row)
        ∷ is_mapping item
        ∷ is_text session_id (get "shpool_id_raw" item)
        ∷ is_text "unknown" (get "provider" item)
        ∷ is_false (get "mutation_allowed" item)
        ∷ is_text "missing-shell-generation" (get "mutation_rejection_reason" item)
        ∷ is_none (get "shpool_shell" item)
        ∷ not (truthy (get "subagents" item))
        ∷ is_none fact
        ∷ is_none (get "pid" (get "identity" item))
        ∷ is_list diagnostics
        ∷ any (says "found 0") (elements diagnostics)
        ∷ not (any (says "unreadable environment") (elements diagnostics))
        ∷ [])

  unfoldable pub phantom_candidate : String → Value → Value → Value → Option Proof
  phantom_candidate session_id row item fact =
      if is_phantom session_id row item fact
      then some (phantom session_id (get "started_at_unix_ms" row))
      else none
