-- ===== src/Moves/Blocks.antt =====
-- lib/sessionkit_inventory/account_guard.py: `session_block_reason`. The sentences are constructors.
use session_kit.Base.{
  ℕ, String, Bool, true, false, ◌&&◌, ◌||◌, not, Option, none, some, ltb, ◌=~◌, if◌then◌else◌,
}
use session_kit.Base.Int.{pos, negsuc}
use session_kit.Json.{Value, null, int, str, get, is_mapping, is_none, is_true, is_text, truthy}
use session_kit.Common.{valid_uuid}
use session_kit.Common.Text.{Unicode, clean_text}

pub data Block : Type 0 where
  not_found identity_mismatch not_mutable binding_mismatch live_account_unknown other_account
        running_subagents busy printed_recently model_unbound :
      Block

-- `valid_uuid(uuid) == value`
abbrev is_exact_uuid : String → Value → Bool
is_exact_uuid uuid value = elim (valid_uuid (str uuid)) [
  | none ↦ is_none value
  | some exact ↦ is_text exact value
]

-- `int(value or 0) != 0`, for the whole number or null that the collector publishes.
abbrev is_nonzero : Value → Bool
is_nonzero null = false
is_nonzero v = truthy v

abbrev status_of : Value → String
status_of (str s) = s
status_of _ = ""

abbrev pub min_quiet_seconds : ℕ
min_quiet_seconds = 5

-- `isinstance(age, int) and age < MIN_QUIET_SECONDS`
abbrev is_recent : Value → Bool
is_recent (int (pos n)) = ltb n min_quiet_seconds
is_recent (int (negsuc n)) = true
is_recent _ = false

module _ (u : Unicode) where
  -- The status is in `MOVABLE_AGENT_STATUS`.
  unfoldable pub is_movable : Value → Bool
  is_movable row =
      let status = u.casefold (status_of (get "agent_status" row)) in
      status =~ "idle" || status =~ "needs your reply" || status =~ "reply optional"

  -- The live account, where the caller names the one on record.
  unfoldable pub account_block : String → Value → Option Block
  account_block source_alias row =
      let live = clean_text u (get "account_alias" row) 12 in
      if source_alias =~ ""
      then none
      else if live =~ ""
      then some live_account_unknown
      else if live =~ source_alias
      then none
      else some other_account

  unfoldable pub activity_block : Value → Option Block
  activity_block row =
      if truthy (get "subagents" row) || is_nonzero (get "active_subagent_count" row)
      then some running_subagents
      else if not (is_movable row)
      then some busy
      else if is_recent (get "recent_output_age_seconds" row)
      then some printed_recently
      else if not (clean_text u (get "model" row) 128 =~ "")
          && not (is_true (get "model_handoff_capable" row))
      then some model_unbound
      else none

  unfoldable pub session_block_reason : Value → String → String → String → Option Block
  session_block_reason row provider uuid source_alias =
      if not (is_mapping row)
      then some not_found
      else if not (is_text provider (get "provider" row))
          || not (is_exact_uuid uuid (get "uuid" (get "identity" row)))
      then some identity_mismatch
      else if not (is_true (get "mutation_allowed" row))
      then some not_mutable
      else if is_true (get "account_binding_mismatch" row)
      then some binding_mismatch
      else elim (account_block source_alias row) [ some b ↦ some b | none ↦ activity_block row ]
