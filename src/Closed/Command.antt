-- ===== src/Closed/Command.antt =====
-- lib/session_inventory.py: what the shell that is about to end records, the action `closed` of
-- `_lifecycle_command`. lib/sessionkit_inventory/lifecycle.py: `_validated_last_exact`.
use session_kit.Base.{
  ℕ, String, Bool, true, false, ◌&&◌, ◌||◌, not, List, [], ◌∷◌, Option, none, some, all_of, ◌=~◌,
  if◌then◌else◌,
}
use session_kit.Base.Int.{pos}
use session_kit.Json.{Value, int, str, get, is_text, is_true, text_of, truthy, equal}
use session_kit.Common.{is_provider, is_digest}
use session_kit.Common.Text.{Unicode}
use session_kit.Lifecycle.Exits.{Shell, load_state, same_generation, has_exactly}
use session_kit.Lifecycle.Intents.{is_some, record_close_intent}
use session_kit.Closed.Ledger.{Entry, Ledger, uuid_or_empty}
use session_kit.Closed.Known.{Call, record_closed_session}

abbrev pub exact_fields : List String
exact_fields =
    "schema_version" ∷ "session_key" ∷ "boot_id" ∷ "shell_pid" ∷ "shell_start_ticks" ∷ "provider"
    ∷ "uuid" ∷ "title" ∷ "display_title" ∷ "title_source" ∷ "recovery" ∷ []

abbrev is_schema : ℕ → Value → Bool
is_schema n value = equal (get "schema_version" value) (int (pos n))

abbrev has_exact_fields : Value → Bool
has_exact_fields value =
    is_schema 1 value && has_exactly exact_fields value
    || is_schema 2 value
      && has_exactly ("record_generation" ∷ exact_fields) value
      && is_digest (get "record_generation" value)

-- The recovery that the record names is of its own conversation.
abbrev recovers : Value → String → String → Bool
recovers recovery provider uuid =
    is_true (get "available" recovery)
    && is_text provider (get "provider" recovery)
    && uuid_or_empty (get "uuid" recovery) =~ uuid

-- The provider and the conversation of a stored record, if it is of the shell.
unfoldable pub validated_last_exact : String → Shell → Value → Option (String × String)
validated_last_exact key shell value = elim (is_provider (get "provider" value)) [
  | none ↦ none
  | some provider ↦ elim (text_of (get "uuid" value)) [
    | none ↦ none
    | some uuid ↦
        if all_of (
          has_exact_fields value
          ∷ is_text key (get "session_key" value)
          ∷ same_generation shell value
          ∷ not (uuid_or_empty (str uuid) =~ "")
          ∷ recovers (get "recovery" value) provider (uuid_or_empty (str uuid))
          ∷ [])
        then some (provider, uuid)
        else none
  ]
]

pub record Request : Type 0 where
  pub key : String
  pub session_id : String
  pub shell : Shell
  pub only_with_conversation : Bool
  pub now : ℕ
  pub ledger_fails : Bool
  pub tombstone_fails : Bool

-- The files: the record of the provider's exit, that of the last exact conversation, the cached
-- inventory, the ledger and the tombstones.
pub record Store : Type 0 where
  pub state : Value
  pub exact : Value
  pub inventory : Value
  pub ledger : Ledger
  pub tombstones : Value

-- What is printed.
pub data Answer : Type 0 where
  raised : Answer
  refused : String → Answer
  not_written : Answer
  history_only : Answer
  recorded_close : String → String → Bool → Bool → Answer

abbrev pub own_state : Shell → Value → Value
own_state shell state = if same_generation shell state then state else Value.null

abbrev pub name_of : Value → String
name_of v = elim (text_of v) [ none ↦ "" | some s ↦ s ]

-- `conversation = retained["uuid"]`, if the record is of the provider.
abbrev from_exact : String → Option (String × String) → String
from_exact name none = ""
from_exact name (some r) = if r.0 =~ name then r.1 else ""

unfoldable pub conversation_of : Request → Value → String → Value → String
conversation_of r state name exact =
    if is_some (is_provider (str name)) && uuid_or_empty (get "conversation_uuid" state) =~ ""
    then from_exact name (validated_last_exact r.key r.shell exact)
    else uuid_or_empty (get "conversation_uuid" state)

abbrev pub close_call : Request → String → String → Call
close_call r name uuid = record {
  provider = name;
  uuid = uuid;
  shpool_id = r.session_id;
  title = "";
  cwd = "";
  origin = "";
  account_alias = "";
}

module _ (u : Unicode) (length_of : Entry → ℕ) (readable : String → String → Bool)
    (size : Value → ℕ) (retention : ℕ) (r : Request) (s : Store) where
  abbrev pub written : Call → Option Ledger
  written c = record_closed_session u length_of r.ledger_fails s.inventory c r.now s.ledger

  unfoldable pub close_shell : Answer × Store
  close_shell =
      if r.only_with_conversation
      then (refused "no exact conversation", s)
      else elim (written (close_call r "shell" "")) [
        | none ↦ (not_written, s)
        | some rows ↦ (history_only, record s { ledger = rows })
      ]

  abbrev pub tombstones_after : String → String → Option Value
  tombstones_after name conversation =
      if r.tombstone_fails
      then none
      else record_close_intent size (str name) (str conversation) r.now retention s.tombstones

  unfoldable pub reported : String → String → Ledger → Option Value → Answer × Store
  reported name conversation rows none = (
    recorded_close name conversation false (readable name conversation),
    record s { ledger = rows },
  )
  reported name conversation rows (some marks) = (
    recorded_close name conversation true (readable name conversation),
    record s { ledger = rows; tombstones = marks },
  )

  unfoldable pub close_conversation : String → String → Answer × Store
  close_conversation name conversation =
      if r.only_with_conversation && not (readable name conversation)
      then (refused "the conversation cannot be read back", s)
      else elim (written (close_call r name conversation)) [
        | none ↦ (not_written, s)
        | some rows ↦ reported name conversation rows (tombstones_after name conversation)
      ]

  abbrev pub close_named : String → String → Answer × Store
  close_named name conversation =
      if is_some (is_provider (str name)) && not (conversation =~ "")
      then close_conversation name conversation
      else close_shell

  unfoldable pub close_of_state : Value → Answer × Store
  close_of_state state =
      if r.only_with_conversation && truthy (get "keep" state)
      then (refused "keep is set", s)
      else close_named (name_of (get "provider" state))
          (conversation_of r state (name_of (get "provider" state)) s.exact)

  unfoldable pub closed_command : Answer × Store
  closed_command = elim (load_state r.key s.state) [
    | none ↦ (raised, s)
    | some state ↦ close_of_state (own_state r.shell state)
  ]
