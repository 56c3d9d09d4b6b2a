-- ===== src/Closed/Known.antt =====
-- lib/sessionkit_inventory/closed_sessions.py: `entry_from_inventory`. lib/session_inventory.py:
-- `_record_closed_session`, which fills in what its caller did not know.
use session_kit.Base.{
  ℕ, String, Bool, ◌&&◌, ◌||◌, not, Option, none, some, find?, ◌=~◌, if◌then◌else◌,
}
use session_kit.Base.Int.{pos}
use session_kit.Json.{Value, Fields, object, field, str, int, get, is_mapping, is_text, elements}
use session_kit.Common.Text.{Unicode, clean_text}
use session_kit.Closed.Ledger.{Entry, Ledger, ok, err, uuid_or_empty, origin_of, record_close}

-- The dict `found`.
pub record Known : Type 0 where
  pub title : String
  pub title_source : String
  pub cwd : String
  pub origin : String
  pub account_alias : String

abbrev pub nothing_known : Known
nothing_known = record {
  title = "";
  title_source = "";
  cwd = "";
  origin = "unknown";
  account_alias = "";
}

-- `identity` may be of any type.
abbrev pub row_uuid : Value → String
row_uuid row = uuid_or_empty (get "uuid" (get "identity" row))

-- The row is of the session that is asked for: by the conversation, or else by the terminal.
abbrev pub is_asked : String → String → String → Value → Bool
is_asked provider exact shpool_id row =
    is_mapping row
    && is_text provider (get "provider" row)
    && (if exact =~ ""
        then not (shpool_id =~ "") && is_text shpool_id (get "shpool_id_raw" row)
        else row_uuid row =~ exact)

abbrev pub details : Unicode → Value → Known
details u row = record {
  title = clean_text u (get "title" row) 120;
  title_source = clean_text u (get "title_source" row) 40;
  cwd = clean_text u (get "cwd" row) 4096;
  origin = origin_of (get "origin_recorded" row);
  account_alias = clean_text u (get "account_alias" row) 12;
}

-- The inventory is `null` where there is none.
unfoldable pub entry_from_inventory : Unicode → Value → String → String → String → Known
entry_from_inventory u inventory provider uuid shpool_id =
    elim (find? (is_asked provider (uuid_or_empty (str uuid)) shpool_id)
      (elements (get "sessions" inventory))) [ none ↦ nothing_known | some row ↦ details u row ]

-- The fields of a call.
pub record Call : Type 0 where
  pub provider : String
  pub uuid : String
  pub shpool_id : String
  pub title : String
  pub cwd : String
  pub origin : String
  pub account_alias : String

-- `a or b`
abbrev pub or_else : String → String → String
or_else a b = if a =~ "" then b else a

abbrev pub known_of : Unicode → Value → Call → Known
known_of u cached c = entry_from_inventory u cached c.provider c.uuid c.shpool_id

abbrev pub lacks : Call → Bool
lacks c = c.title =~ "" || c.cwd =~ "" || c.origin =~ ""

unfoldable pub filled : Unicode → Value → Call → Call
filled u cached c =
    if lacks c
    then record c {
      title = or_else c.title (known_of u cached c).title;
      cwd = or_else c.cwd (known_of u cached c).cwd;
      origin = or_else c.origin (known_of u cached c).origin;
      account_alias = or_else c.account_alias (known_of u cached c).account_alias;
    }
    else c

-- Only a title that was read from a row has that row's source.
unfoldable pub source_of : Unicode → Value → Call → String
source_of u cached c = if lacks c && c.title =~ "" then (known_of u cached c).title_source else ""

-- The value that `record_close` makes of its arguments.
abbrev pub call_value : Call → String → ℕ → Value
call_value c title_source now = object (
    field "provider" (str c.provider) (
      field "uuid" (str c.uuid) (
        field "title" (str c.title) (
          field "title_source" (str title_source) (
            field "cwd" (str c.cwd) (
              field "closed_at_unix_ms" (int (pos now)) (
                field "origin" (str c.origin) (
                  field "shpool_id" (str c.shpool_id)
                    (field "account_alias" (str c.account_alias) Fields.end)))))))))

abbrev pub full_call : Unicode → Value → Call → Call
full_call u cached c = record c {
  title = (filled u cached c).title;
  cwd = (filled u cached c).cwd;
  origin = or_else (filled u cached c).origin "unknown";
  account_alias = (filled u cached c).account_alias;
}

-- The ledger after the call, or none where the close is reported as not recorded; `fails` says that
-- the file cannot be written.
unfoldable pub record_closed_session :
    Unicode → (Entry → ℕ) → Bool → Value → Call → ℕ → Ledger → Option Ledger
record_closed_session u length_of fails cached c now rows =
    elim (record_close u length_of (call_value (full_call u cached c) (source_of u cached c) now)
      rows) [ err e ↦ none | ok after ↦ if fails then none else some after ]
