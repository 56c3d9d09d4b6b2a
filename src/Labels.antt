-- ===== src/Labels.antt =====
-- lib/sessionkit_inventory/labels.py: the one state word of a session's row. A collector's status
-- that no table names is read as a session that cannot be read.
use session_kit.Base.{ℕ, String, Bool, false, ◌&&◌, ◌||◌, [], ◌∷◌, none, some, ◌=~◌, if◌then◌else◌}
use session_kit.Base.Int.{pos, leb_ℤ}
use session_kit.Base.Assoc.{Dict, lookup}
use session_kit.Json.{Value, int, get, truthy, is_true}
use session_kit.Common.Text.{Unicode, clean_text}

abbrev pub waiting_on_you : String
waiting_on_you = "needs you"

abbrev pub working : String
working = "working"

-- `STATUS_UNAVAILABLE` and `SETUP_INCOMPLETE`
abbrev pub pending : String
pending = "pending"

-- `STATE_WORDS`
abbrev pub state_words : Dict String
state_words =
    ("needs your reply", waiting_on_you)
    ∷ ("reply optional", working)
    ∷ ("running", working)
    ∷ ("idle", waiting_on_you)
    ∷ ("working", working)
    ∷ ("provider exited", waiting_on_you)
    ∷ ("state unavailable", pending)
    ∷ ("unknown", pending)
    ∷ []

unfoldable pub state_word : Unicode → String → String
state_word u text = elim (lookup (u.casefold text) state_words) [ none ↦ pending | some w ↦ w ]

-- `clean_text(row.get("agent_status"), 64) or STATUS_STATE_UNAVAILABLE`
unfoldable pub status_of : Unicode → Value → String
status_of u row =
    let status : String = clean_text u (get "agent_status" row) 64 in
    if status =~ "" then "state unavailable" else status

-- `isinstance(quiet, int) and not isinstance(quiet, bool) and quiet >= stall_seconds`
abbrev is_stalled : ℕ → Value → Bool
is_stalled stall (int quiet) = leb_ℤ (pos stall) quiet
is_stalled stall _ = false

-- The state that its status gives a row, and whether it has stopped.
unfoldable pub stalled_state : ℕ → Value → String → String
stalled_state stall row state =
    if state =~ working && is_stalled stall (get "recent_output_age_seconds" row)
    then waiting_on_you
    else state

abbrev aged : Value → String → String
aged row state =
    if state =~ waiting_on_you && is_true (get "transcript_idle" row) then "idle" else state

unfoldable pub session_state : Unicode → ℕ → Value → String
session_state u stall row =
    if truthy (get "setup_incomplete" row)
    then pending
    else if is_true (get "blocking_question" row)
    then "question"
    else if truthy (get "needs_you" row)
    then if is_true (get "transcript_idle" row) then "idle" else waiting_on_you
    else if truthy (get "reply_optional" row) || u.casefold (status_of u row) =~ "reply optional"
    then working
    else aged row (stalled_state stall row (state_word u (status_of u row)))
