-- ===== src/Closed/Ledger.antt =====
-- lib/sessionkit_inventory/closed_sessions.py: the rows of the ledger, and the calls that write it.
-- A call holds the ledger's lock, so what it read is still there when it writes. A row is a line of
-- the file: blank, the JSON value that it holds, no JSON, or a last line without its end; with its
-- length in bytes.
use session_kit.Base.{
  ℕ, ◌+◌, String, Bool, false, ◌&&◌, not, List, [], ◌∷◌, ◌++◌ as ◌⊕◌, Option, none, some, ltb, ◌==◌,
  ◌=~◌, one_of, if◌then◌else◌,
}
use session_kit.Base.Int.{pos}
use session_kit.Base.Result.{Raising}
use session_kit.Base.Sort.{tally}
pub use session_kit.Base.Result.{ok, err, ◌>>=◌, bind-ok, ok-injective}
use session_kit.Json.{
  Value, Fields, object, field, str, int, get, is_mapping, is_positive_int, natural,
}
use session_kit.Common.{valid_uuid}
use session_kit.Common.Text.{Unicode, clean_text}

-- What a list shows of a close. `title_source` is kept beside it.
pub record Closed : Type 0 where
  pub provider : String
  pub uuid : String
  pub title : String
  pub cwd : String
  pub closed_at_unix_ms : ℕ
  pub origin : String
  pub shpool_id : String
  pub account_alias : String

pub record Entry : Type 0 where
  pub closed : Closed
  pub title_source : String

pub data Error : Type 0 where
  row_too_long malformed_row incomplete_row invalid_row ledger_too_large no_conversation : Error

abbrev pub max_row_bytes : ℕ
max_row_bytes = 65536

-- `MAX_LIST_LEDGER_BYTES`
abbrev pub max_ledger_bytes : ℕ
max_ledger_bytes = 536870912

-- `value in PROVIDERS`
abbrev pub provider_of : Value → Option String
provider_of (str s) =
    if s =~ "shell" then some s else if one_of s "claude" "codex" then some s else none
provider_of _ = none

abbrev pub uuid_or_empty : Value → String
uuid_or_empty v = elim (valid_uuid v) [ none ↦ "" | some u ↦ u ]

abbrev pub origin_of : Value → String
origin_of (str s) = if one_of s "human" "machine" then s else "unknown"
origin_of _ = "unknown"

-- The entry that a value with a provider is, but for the tests.
unfoldable pub entry_of : Unicode → String → Value → Entry
entry_of u provider v = record {
  closed = record {
    provider = provider;
    uuid = uuid_or_empty (get "uuid" v);
    title = clean_text u (get "title" v) 120;
    cwd = clean_text u (get "cwd" v) 4096;
    closed_at_unix_ms = natural (get "closed_at_unix_ms" v);
    origin = origin_of (get "origin" v);
    shpool_id = clean_text u (get "shpool_id" v) 64;
    account_alias = clean_text u (get "account_alias" v) 12;
  };
  title_source = clean_text u (get "title_source" v) 40;
}

unfoldable pub entry : Unicode → Value → Option Entry
entry u v =
    if is_mapping v
    then elim (provider_of (get "provider" v)) [
      | none ↦ none
      | some provider ↦
          if not (provider =~ "shell") && uuid_or_empty (get "uuid" v) =~ ""
          then none
          else if is_positive_int (get "closed_at_unix_ms" v)
          then some (entry_of u provider v)
          else none
    ]
    else none

pub data Line : Type 0 where
  blank garbled partial : Line
  json : Value → Line

pub record Row : Type 0 where
  pub line : Line
  pub bytes : ℕ

abbrev pub Ledger : Type 0
Ledger = List Row

abbrev pub Result {ℓ} : Type ℓ → Type ℓ
Result A = Raising Error A

-- An entry, or none where the row is blank.
unfoldable pub parse_record : Unicode → Row → Result (Option Entry)
parse_record u row = if ltb max_row_bytes row.bytes then err row_too_long else elim row.line [
  | blank ↦ ok none
  | garbled ↦ err malformed_row
  | partial ↦ err incomplete_row
  | json v ↦ elim (entry u v) [ none ↦ err invalid_row | some e ↦ ok (some e) ]
]

abbrev pub size : Ledger → ℕ
size [] = 0
size (r ∷ rs) = r.bytes + size rs

-- The rows with what they hold. Every row is read before any is used.
unfoldable pub parse_all : Unicode → Ledger → Result (List (Row × Option Entry))
parse_all u [] = ok []
parse_all u (r ∷ rs) = parse_record u r >>= λ e. parse_all u rs >>= λ es. ok ((r, e) ∷ es)

abbrev exceeds : Option ℕ → ℕ → Bool
exceeds none n = false
exceeds (some maximum) n = ltb maximum n

-- `_scan_records_unlocked`
unfoldable pub scan : Unicode → Option ℕ → Ledger → Result (List (Row × Option Entry))
scan u maximum rows = if exceeds maximum (size rows) then err ledger_too_large else parse_all u rows

-- The document of an entry.
abbrev pub entry_value : Entry → Value
entry_value e = object (
    field "provider" (str e.closed.provider) (
      field "uuid" (str e.closed.uuid) (
        field "title" (str e.closed.title) (
          field "title_source" (str e.title_source) (
            field "cwd" (str e.closed.cwd) (
              field "closed_at_unix_ms" (int (pos e.closed.closed_at_unix_ms)) (
                field "origin" (str e.closed.origin) (
                  field "shpool_id" (str e.closed.shpool_id)
                    (field "account_alias" (str e.closed.account_alias) Fields.end)))))))))

-- The row that is appended: `length_of` is the length of a document's line.
abbrev pub row_of : (Entry → ℕ) → Entry → Row
row_of length_of e = record { line = json (entry_value e); bytes = length_of e }

-- Appends one close, if the ledger can be listed with it. The argument is the value that is made of
-- the call's fields.
unfoldable pub record_close : Unicode → (Entry → ℕ) → Value → Ledger → Result Ledger
record_close u length_of v rows = elim (entry u v) [
  | none ↦ err no_conversation
  | some e ↦ scan u (some max_ledger_bytes) rows >>= λ before.
      parse_record u (row_of length_of e) >>= λ own.
      if ltb max_ledger_bytes (size rows + length_of e)
      then err ledger_too_large
      else ok (rows ⊕ (row_of length_of e ∷ []))
]

abbrev pub is_about : String → String → Closed → Bool
is_about provider uuid c = c.provider =~ provider && c.uuid =~ uuid

-- The row is of the conversation.
abbrev pub drops : String → String → Row × Option Entry → Bool
drops provider uuid r = elim r.1 [ none ↦ false | some e ↦ is_about provider uuid e.closed ]

-- What is left of the ledger.
unfoldable pub rewritten : String → String → List (Row × Option Entry) → Ledger
rewritten provider uuid [] = []
rewritten provider uuid (r ∷ rs) =
    let rest = rewritten provider uuid rs in if drops provider uuid r then rest else r.0 ∷ rest

-- Drops a conversation that is open again, and says how many of its rows there were.
unfoldable pub forget : Unicode → Value → Value → Ledger → Result (ℕ × Ledger)
forget u provider uuid rows = elim (provider_of provider) [
  | none ↦ ok (0, rows)
  | some p ↦
      if uuid_or_empty uuid =~ ""
      then ok (0, rows)
      else scan u none rows >>= λ parsed.
          if tally (drops p (uuid_or_empty uuid)) parsed == 0
          then ok (0, rows)
          else ok
              (tally (drops p (uuid_or_empty uuid)) parsed, rewritten p (uuid_or_empty uuid) parsed)
]
