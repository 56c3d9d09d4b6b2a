-- ===== src/Lifecycle/Exits.antt =====
-- lib/sessionkit_inventory/lifecycle.py: `_validated_state`, `record_provider_exit`, `update_state`
-- and `cleanup_protected`, on the stored document of one session. No document is `null`, a raised
-- error is `none`. The session's key (an HMAC of its ID) and the fresh `token_hex(32)` of a write
-- are arguments.
use Prim.Native.Char.{code}
use session_kit.Base.{
  ℕ, String, Bool, true, false, ◌&&◌, ◌||◌, not, List, [], ◌∷◌, Option, none, some, leb, ◌==◌,
  all_of, length, if◌then◌else◌,
}
use session_kit.Base.Int.{pos}
use session_kit.Json.{
  Value, null, bool, int, str, object, end, field, get, put, has, is_mapping, is_none, is_text,
  is_positive_int, truthy, equal, fields,
}
use session_kit.Common.{only, is_digest, valid_uuid, is_provider, is_hex}
use session_kit.Common.Text.{is_generated_id, is_legacy_id}

-- `_BOOT_ID_RE`
unfoldable pub is_boot_id : Value → Bool
is_boot_id (str s) = only (λ c. is_hex c || (code c == b'-')) 8 128 s
is_boot_id _ = false

-- `_checked_session_id`
unfoldable pub checked_session_id : Value → Option String
checked_session_id (str s) = if is_legacy_id s || is_generated_id s then some s else none
checked_session_id _ = none

abbrev is_bool : Value → Bool
is_bool (bool b) = true
is_bool _ = false

abbrev is_exit_code : Value → Bool
is_exit_code (int (pos n)) = leb n 255
is_exit_code _ = false

-- `value is None or valid_uuid(value) == value`
unfoldable pub is_optional_uuid : Value → Bool
is_optional_uuid value = elim (valid_uuid value) [
  | none ↦ is_none value
  | some checked ↦ is_text checked value
]

abbrev has_all : List String → Value → Bool
has_all [] v = true
has_all (k ∷ ks) v = has k v && has_all ks v

abbrev size : Value → ℕ
size (object fs) = fields fs
size _ = 0

-- `set(value) == {…}`, for keys that differ.
unfoldable pub has_exactly : List String → Value → Bool
has_exactly ks v = has_all ks v && (size v == length ks)

abbrev pub legacy_fields : List String
legacy_fields =
    "schema_version" ∷ "session_key" ∷ "boot_id" ∷ "shell_pid" ∷ "shell_start_ticks" ∷ "provider"
    ∷ "conversation_uuid" ∷ "provider_exited_at_monotonic_ns" ∷ "exit_code" ∷ "input_tracking"
    ∷ "user_input_after_exit" ∷ "keep" ∷ []

-- A document of schema 2 is read as one of schema 3.
unfoldable pub upgraded : Value → Value
upgraded value =
    if is_mapping value
      && equal (get "schema_version" value) (int (pos 2))
      && not (has "conversation_uuid" value)
    then put "conversation_uuid" null (put "schema_version" (int (pos 3)) value)
    else value

abbrev is_latest : Value → Bool
is_latest value = equal (get "schema_version" value) (int (pos 4))

unfoldable pub is_valid_state : String → Value → Bool
is_valid_state key value = all_of (
    is_mapping value
    ∷ (equal (get "schema_version" value) (int (pos 3)) || is_latest value)
    ∷ has_exactly (if is_latest value then "record_generation" ∷ legacy_fields else legacy_fields)
        value
    ∷ is_digest (get "session_key" value)
    ∷ is_text key (get "session_key" value)
    ∷ is_boot_id (get "boot_id" value)
    ∷ (elim (is_provider (get "provider" value)) [ none ↦ false | some p ↦ true ])
    ∷ is_optional_uuid (get "conversation_uuid" value)
    ∷ is_exit_code (get "exit_code" value)
    ∷ is_bool (get "input_tracking" value)
    ∷ is_bool (get "user_input_after_exit" value)
    ∷ is_bool (get "keep" value)
    ∷ (not (is_latest value) || is_digest (get "record_generation" value))
    ∷ is_positive_int (get "shell_pid" value)
    ∷ is_positive_int (get "shell_start_ticks" value)
    ∷ is_positive_int (get "provider_exited_at_monotonic_ns" value)
    ∷ [])

-- `_validated_state`
unfoldable pub validated_state : String → Value → Option Value
validated_state key value =
    if is_valid_state key (upgraded value) then some (upgraded value) else none

-- `load_state`
unfoldable pub load_state : String → Value → Option Value
load_state key stored = if is_none stored then some null else validated_state key stored

-- The generation of a shell, as a call passes it.
pub record Shell : Type 0 where
  pub boot_id : String
  pub shell_pid : ℕ
  pub shell_start_ticks : ℕ

unfoldable pub same_generation : Shell → Value → Bool
same_generation s previous = all_of (
    is_mapping previous
    ∷ is_text s.boot_id (get "boot_id" previous)
    ∷ equal (get "shell_pid" previous) (int (pos s.shell_pid))
    ∷ equal (get "shell_start_ticks" previous) (int (pos s.shell_start_ticks))
    ∷ [])

-- What an exited provider reports.
pub record Exit : Type 0 where
  pub provider : Value
  pub conversation_uuid : Value
  pub exit_code : Value
  pub input_tracking : Value
  pub now : ℕ
  pub record_generation : String

-- Neither the provider nor the conversation may change within one generation.
unfoldable pub contradicts : Exit → Value → Bool
contradicts e previous =
    let prior = get "conversation_uuid" previous in
    not (equal (get "provider" previous) e.provider)
    || (not (is_none prior)
        && not (is_none e.conversation_uuid)
        && not (equal prior e.conversation_uuid))

-- `valid_uuid(value) or None`
abbrev uuid_or_null : Value → Value
uuid_or_null v = elim (valid_uuid v) [ none ↦ null | some u ↦ str u ]

unfoldable pub exit_document : String → Shell → Exit → Value → Value → Value → Value
exit_document key s e conversation user_input keep = object (
    field "schema_version" (int (pos 4)) (
      field "record_generation" (str e.record_generation) (
        field "session_key" (str key) (
          field "boot_id" (str s.boot_id) (
            field "shell_pid" (int (pos s.shell_pid)) (
              field "shell_start_ticks" (int (pos s.shell_start_ticks)) (
                field "provider" e.provider (
                  field "conversation_uuid" (uuid_or_null conversation) (
                    field "provider_exited_at_monotonic_ns" (int (pos e.now)) (
                      field "exit_code" e.exit_code (
                        field "input_tracking" e.input_tracking (
                          field "user_input_after_exit" user_input
                            (field "keep" keep end)))))))))))))

unfoldable pub exit_after : String → Shell → Exit → Value → Option Value
exit_after key s e previous =
    if same_generation s previous
    then (if contradicts e previous
        then none
        else validated_state key (
            exit_document key s e
              (if is_none e.conversation_uuid
                then get "conversation_uuid" previous
                else e.conversation_uuid)
              (bool (truthy (get "user_input_after_exit" previous)))
              (bool (truthy (get "keep" previous)))))
    else validated_state key (exit_document key s e e.conversation_uuid (bool false) (bool false))

-- What is stored after the call, if it does not raise.
unfoldable pub record_provider_exit : String → Shell → Exit → Value → Option Value
record_provider_exit key s e stored =
    if is_optional_uuid e.conversation_uuid
    then (elim (load_state key stored) [
      | none ↦ none
      | some previous ↦ exit_after key s e previous
    ])
    else none

pub data Event : Type 0 where
  user_input : Event
  keeps : Bool → Event
  unsupported : Event

unfoldable pub updated : Event → Value → Option Value
updated user_input current = some (put "user_input_after_exit" (bool true) current)
updated (keeps b) current = some (put "keep" (bool b) current)
updated unsupported current = none

unfoldable pub stamped : String → Value → Value
stamped record_generation current =
    put "record_generation" (str record_generation) (put "schema_version" (int (pos 4)) current)

unfoldable pub update_state : String → Shell → Event → String → Value → Option Value
update_state key s event record_generation stored = elim (load_state key stored) [
  | none ↦ none
  | some current ↦
      if same_generation s current
      then (elim (updated event current) [
        | none ↦ none
        | some changed ↦ validated_state key (stamped record_generation changed)
      ])
      else none
]

-- `cleanup_protected`, for one session whose document exists: a record that cannot be read protects.
unfoldable pub is_protected : String → Value → Bool
is_protected key stored = elim (load_state key stored) [
  | none ↦ true
  | some state ↦
      is_mapping state && (truthy (get "keep" state) || truthy (get "user_input_after_exit" state))
]

-- The calls of one shell's generation.
pub data Call : Type 0 where
  exits : Exit → Call
  updates : Event → String → Call

unfoldable pub after : String → Shell → Call → Value → Value
after key s (exits e) stored = elim (record_provider_exit key s e stored) [
  | none ↦ stored
  | some written ↦ written
]
after key s (updates event generation) stored = elim (update_state key s event generation stored) [
  | none ↦ stored
  | some written ↦ written
]

unfoldable pub after_all : String → Shell → List Call → Value → Value
after_all key s [] stored = stored
after_all key s (c ∷ cs) stored = after_all key s cs (after key s c stored)
