-- ===== src/Closed/Tests.antt =====
-- lib/sessionkit_inventory/closed_sessions.py: a ledger with three rows.
use session_kit.Base.{
  ℕ, ◌≡◌, refl, not, String, Bool, true, false, List, [], ◌∷◌, ◌++◌, none, some, keep_if, All, Any,
  ◌=~◌, string_dec,
}
use session_kit.Base.Int.{pos}
use session_kit.Base.Sort.{sort_by, place_in, tally, IsSorted}
use session_kit.Json.{Value, Fields, object, field, str, int, get}
use session_kit.Common.{valid_uuid}
use session_kit.Common.Text.{ascii, clean_text}
use session_kit.Closed.Ledger.{
  Closed, Entry, Row, Ledger, blank, json, ok, entry, entry_of, parse_record, parse_all, scan,
  provider_of, uuid_or_empty, is_about, row_of, rewritten, forget,
}
use session_kit.Closed.Listing.{Listed, upsert, retain, retain_all, newer, load_closed}
use session_kit.Closed.Kept.{IsCovered}
use session_kit.Closed.Shown.{recorded, Follows, load_closed-shows}
use session_kit.Closed.Forgotten.{forget-recorded}

abbrev one : String
one = "11111111-1111-4111-8111-111111111111"

abbrev value : String → String → ℕ → Value
value provider uuid at = object (
    field "provider" (str provider) (
      field "uuid" (str uuid)
        (field "shpool_id" (str "main") (field "closed_at_unix_ms" (int (pos at)) Fields.end))))

abbrev row : String → String → ℕ → Row
row provider uuid at = record { line = json (value provider uuid at); bytes = 200 }

abbrev ledger : Ledger
ledger =
    row "claude" one 5
    ∷ record { line = blank; bytes = 1 }
    ∷ row "shell" "" 7
    ∷ row "claude" one 9
    ∷ []

abbrev readable : String → String → Bool
readable provider uuid = true

abbrev closed : String → String → ℕ → Closed
closed provider uuid at = record {
  provider = provider;
  uuid = uuid;
  title = "";
  cwd = "";
  closed_at_unix_ms = at;
  origin = "unknown";
  shpool_id = "main";
  account_alias = "";
}

abbrev listed : List Listed
listed =
    record { closed = closed "claude" one 9; restorable = true }
    ∷ record { closed = closed "shell" "" 7; restorable = false }
    ∷ []

loaded : load_closed ascii readable none false ledger ≡ ok listed
unfolding load_closed scan parse_all parse_record entry entry_of get valid_uuid clean_text
    retain_all retain upsert newer sort_by place_in string_dec
loaded = refl

load_closed-shows_example :
    All (λ x. Any (λ l. IsCovered x l.closed) listed) (recorded ascii ledger)
    × (All (λ l. Any (λ x. x ≡ l.closed) (recorded ascii ledger)) listed × IsSorted Follows listed)
load_closed-shows_example = load_closed-shows ascii readable false ledger listed loaded

abbrev length_of : Entry → ℕ
length_of e = 200

abbrev fresh : Value
fresh = value "codex" one 12

abbrev after : Ledger
after =
    ledger ++ (row_of length_of (record { closed = closed "codex" one 12; title_source = "" }) ∷ [])

abbrev left : Ledger
left = record { line = blank; bytes = 1 } ∷ row "shell" "" 7 ∷ []

forgotten : forget ascii (str "claude") (str one) ledger ≡ ok (2, left)
unfolding forget scan parse_all parse_record rewritten entry entry_of get valid_uuid clean_text
    string_dec
forgotten = refl

exact_uuid : (uuid_or_empty (str one) =~ "") ≡ false
unfolding valid_uuid string_dec
exact_uuid = refl

claude : provider_of (str "claude") ≡ some "claude"
unfolding string_dec
claude = refl

forget-recorded_example :
    (recorded ascii left
      ≡ keep_if (λ c. not (is_about "claude" (uuid_or_empty (str one)) c)) (recorded ascii ledger))
    × (2 ≡ tally (is_about "claude" (uuid_or_empty (str one))) (recorded ascii ledger))
forget-recorded_example =
    forget-recorded ascii (str "claude") (str one) "claude" ledger left 2 claude exact_uuid
      forgotten
