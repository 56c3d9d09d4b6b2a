-- ===== src/Closed/Runs.antt =====
-- lib/session_inventory.py: a shell whose provider has exited ends.
use session_kit.Base.{ℕ, ◌≡◌, refl, String, Bool, true, false, [], ◌∷◌, string_dec}
use session_kit.Base.Int.{pos}
use session_kit.Json.{
  Value, null, bool, int, str, object, list, field, end, nil, cons, get, put, has, equal,
}
use session_kit.Common.{only, is_digest, valid_uuid, is_provider}
use session_kit.Common.Text.{ascii, clean_text}
use session_kit.Lifecycle.Exits.{
  is_boot_id, is_optional_uuid, has_exactly, upgraded, is_valid_state, validated_state, load_state,
  Shell, same_generation, Exit, exit_document,
}
use session_kit.Lifecycle.Intents.{
  closed_entries, validated_close_intents, load_close_intents, close_intent_key, intent_document,
  record_close_intent,
}
use session_kit.Closed.Ledger.{
  Entry, entry, entry_of, parse_record, parse_all, scan, record_close, row_of,
}
use session_kit.Closed.Known.{entry_from_inventory, filled, source_of, record_closed_session}
use session_kit.Closed.Command.{
  Request, Store, recorded_close, refused, validated_last_exact, conversation_of, close_shell,
  reported, close_conversation, close_of_state, closed_command,
}
use session_kit.Closed.Handed.{Marked, Told, closed_command-Marked}

abbrev key : String
key = "00112233445566778899aabbccddeeff00112233445566778899aabbccddeeff"

abbrev uuid : String
uuid = "0c5a8f12-1b2c-4d5e-8f90-abcdefabcdef"

abbrev shell : Shell
shell = record { boot_id = "0c5a8f12-1b2c"; shell_pid = 4242; shell_start_ticks = 7 }

abbrev exit_of : Exit
exit_of = record {
  provider = str "claude";
  conversation_uuid = str uuid;
  exit_code = int (pos 0);
  input_tracking = bool true;
  now = 500;
  record_generation = key;
}

abbrev state_of : Bool → Value
state_of keep = exit_document key shell exit_of (str uuid) (bool false) (bool keep)

-- An inventory in which the session has a name that somebody gave it.
abbrev inventory : Value
inventory = object (
    field "sessions"
      (list (
        cons
          (object (
            field "provider" (str "claude") (
              field "identity" (object (field "uuid" (str uuid) end)) (
                field "title" (str "parser")
                  (field "title_source" (str "operator") (field "origin" (str "machine") end))))))
          nil))
      end)

abbrev store : Bool → Store
store keep = record {
  state = state_of keep;
  exact = null;
  inventory = inventory;
  ledger = [];
  tombstones = null;
}

abbrev request : Bool → Request
request automatic = record {
  key = key;
  session_id = "main";
  shell = shell;
  only_with_conversation = automatic;
  now = 1000;
  ledger_fails = false;
  tombstone_fails = false;
}

abbrev length_of : Entry → ℕ
length_of e = 300

-- The length of every document, as it is written.
abbrev size : Value → ℕ
size v = 1000

abbrev readable : String → String → Bool
readable p c = true

-- The origin that was not recorded stays unknown.
abbrev made : Entry
made = record {
  closed = record {
    provider = "claude";
    uuid = uuid;
    title = "parser";
    cwd = "";
    closed_at_unix_ms = 1000;
    origin = "unknown";
    shpool_id = "main";
    account_alias = "";
  };
  title_source = "operator";
}

abbrev ended : Store
ended = record (store false) {
  ledger = row_of length_of made ∷ [];
  tombstones = intent_document (("claude:0c5a8f12-1b2c-4d5e-8f90-abcdefabcdef", pos 1000) ∷ []);
}

ends :
    closed_command ascii length_of readable size 500 (request true) (store false)
    ≡ (recorded_close "claude" uuid true true, ended)
unfolding closed_command close_of_state conversation_of validated_last_exact close_conversation
    close_shell reported record_closed_session entry_from_inventory filled source_of record_close
    scan parse_all parse_record entry entry_of load_state same_generation exit_document
    validated_state is_optional_uuid is_valid_state upgraded has_exactly is_digest is_boot_id only
    get put has equal valid_uuid is_provider clean_text string_dec record_close_intent
    close_intent_key load_close_intents validated_close_intents closed_entries intent_document
ends = refl

-- An automatic close leaves a session alone that is kept.
kept :
    closed_command ascii length_of readable size 500 (request true) (store true)
    ≡ (refused "keep is set", store true)
unfolding closed_command close_of_state load_state same_generation exit_document validated_state
    is_optional_uuid is_valid_state upgraded has_exactly is_digest is_boot_id only get put has equal
    valid_uuid is_provider string_dec
kept = refl

closed_command-Marked_example :
    Marked ascii readable size 500
      (request true)
      (store false)
      (closed_command ascii length_of readable size 500 (request true) (store false)).1
    × Told ascii
        (closed_command ascii length_of readable size 500 (request true) (store false)).0
        (closed_command ascii length_of readable size 500 (request true) (store false)).1
closed_command-Marked_example =
    closed_command-Marked ascii length_of readable size 500 (request true) (store false)
