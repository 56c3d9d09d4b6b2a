-- ===== src/Lifecycle/Tests.antt =====
-- lifecycle.py: runs on concrete documents, and the theorems at them.
use session_kit.Base.{
  ℕ, none, ◌+◌, ◌≤◌, ◌≡◌, refl, arith, String, Bool, true, false, List, [], ◌∷◌, some, Any,
  string_dec,
}
use session_kit.Base.Int.{ℤ, pos}
use session_kit.Base.Assoc.{Dict}
use session_kit.Json.{Value, null, bool, int, str, get, put, has, equal}
use session_kit.Common.{only, is_digest, valid_uuid, is_provider}
use session_kit.Lifecycle.Intents.{
  is_too_long, intents_of, closed_entries, validated_close_intents, intent_document,
  load_close_intents, close_intent_key, record_close_intent, closed_on_purpose, Close, after_close,
  after_closes,
}
use session_kit.Lifecycle.Closed.{record_close_intent-closed, closed_on_purpose-recorded}
use session_kit.Lifecycle.Exits.{
  is_boot_id, is_optional_uuid, has_exactly, upgraded, is_valid_state, validated_state, load_state,
  Shell, same_generation, Exit, exit_document, exit_after, record_provider_exit, user_input, keeps,
  updated, stamped, update_state, is_protected, exits, updates, after_all,
}
use session_kit.Lifecycle.Blockers.{update_state-is_protected}

abbrev uuid : Value
uuid = str "0c5a8f12-1b2c-4d5e-8f90-abcdefabcdef"

abbrev other_uuid : Value
other_uuid = str "1c5a8f12-1b2c-4d5e-8f90-abcdefabcdef"

abbrev closed_at : Dict ℤ → Value
closed_at d = intent_document d

abbrev written : Value
written = closed_at (("claude:0c5a8f12-1b2c-4d5e-8f90-abcdefabcdef", pos 1000) ∷ [])

-- The length of every document, as it is written.
abbrev size : Value → ℕ
size v = 1000

close_written : record_close_intent size (str "claude") uuid 1000 500 null ≡ some written
unfolding record_close_intent close_intent_key load_close_intents validated_close_intents
    closed_entries intent_document get equal valid_uuid is_provider string_dec
close_written = refl

abbrev close_other : Close
close_other = record { provider = str "codex"; uuid = other_uuid; now = 1200 }

abbrev between : Value
between = after_closes size 500 (close_other ∷ []) written

short : is_too_long size between ≡ false
unfolding after_closes after_close record_close_intent close_intent_key load_close_intents
    validated_close_intents closed_entries intent_document get equal valid_uuid is_provider
    string_dec
short = refl

record_close_intent-closed_example :
    (closed_on_purpose size (str "claude") uuid none 1500 500 between ≡ some true)
    × ((d : Dict ℤ)
        → load_close_intents size 1500 500 between ≡ some d
        → closed_on_purpose size (str "claude") uuid (some (intent_document d)) 1500 500 between
          ≡ some true)
record_close_intent-closed_example =
    record_close_intent-closed size (str "claude") uuid 1000 1500 500 null written
      (close_other ∷ []) close_written ((omega arith, omega arith), tt) (omega arith) short

-- A document that is too long is not read.
not_read : closed_on_purpose (λ v. 262145) (str "claude") uuid none 1500 500 written ≡ none
unfolding closed_on_purpose intents_of load_close_intents close_intent_key intent_document
    valid_uuid is_provider string_dec
not_read = refl

abbrev closes : List Close
closes = record { provider = str "claude"; uuid = uuid; now = 1000 } ∷ close_other ∷ []

closed_now :
    closed_on_purpose size (str "claude") uuid none 1500 500 (after_closes size 500 closes null)
    ≡ some true
unfolding after_closes after_close closed_on_purpose intents_of record_close_intent close_intent_key
    load_close_intents validated_close_intents closed_entries intent_document get equal valid_uuid
    is_provider string_dec
closed_now = refl

-- The tombstone has expired.
closed_no_more :
    closed_on_purpose size (str "claude") uuid none 1501 500 (after_closes size 500 closes null)
    ≡ some false
unfolding after_closes after_close closed_on_purpose intents_of record_close_intent close_intent_key
    load_close_intents validated_close_intents closed_entries intent_document get equal valid_uuid
    is_provider string_dec
closed_no_more = refl

closed_on_purpose-recorded_example :
    Any
      (λ c.
        (close_intent_key c.provider c.uuid ≡ close_intent_key (str "claude") uuid)
        × (1500 ≤ c.now + 500))
      closes
closed_on_purpose-recorded_example =
    closed_on_purpose-recorded size (str "claude") uuid 1500 500 closes closed_now

abbrev key : String
key = "00112233445566778899aabbccddeeff00112233445566778899aabbccddeeff"

abbrev shell : Shell
shell = record { boot_id = "0c5a8f12-1b2c"; shell_pid = 4242; shell_start_ticks = 7 }

abbrev exit_of : Value → Exit
exit_of conversation = record {
  provider = str "claude";
  conversation_uuid = conversation;
  exit_code = int (pos 0);
  input_tracking = bool true;
  now = 500;
  record_generation = key;
}

abbrev exit_stored : Bool → Value
exit_stored typed = exit_document key shell (exit_of uuid) uuid (bool typed) (bool false)

exit_recorded : record_provider_exit key shell (exit_of uuid) null ≡ some (exit_stored false)
unfolding record_provider_exit is_optional_uuid load_state exit_after same_generation exit_document
    validated_state is_valid_state upgraded has_exactly is_digest is_boot_id only get put has equal
    valid_uuid is_provider string_dec
exit_recorded = refl

typed_recorded : update_state key shell user_input key (exit_stored false) ≡ some (exit_stored true)
unfolding update_state updated stamped is_optional_uuid load_state same_generation exit_document
    validated_state is_valid_state upgraded has_exactly is_digest is_boot_id only get put has equal
    valid_uuid is_provider string_dec
typed_recorded = refl

update_state-is_protected_example :
    is_protected key (
      after_all key shell
        (exits (exit_of null) ∷ updates (keeps false) key ∷ [])
        (exit_stored true))
    ≡ true
update_state-is_protected_example =
    update_state-is_protected key shell key (exit_stored false) (exit_stored true)
      (exits (exit_of null) ∷ updates (keeps false) key ∷ []) typed_recorded
