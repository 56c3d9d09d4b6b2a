-- ===== src/Picker/Tests.antt =====
-- lib/sessionkit_tui: concrete screens and events.
use session_kit.Base.{
  contains, keep_if, not, ◌++◌, compare_text, ℕ, ◌≡◌, ◌≤◌, ◌↔◌, inl, inr, Any, ◌=~◌, refl, String,
  Bool, true, false, ◌||◌, List, [], ◌∷◌, none, some, map, ltb, string_dec,
}
use session_kit.Base.Sort.{sort_by, place_in, tally, IsSorted}
use session_kit.Json.{Fields, object, field, str, get}
use session_kit.Common.Text.{ascii, clean_text}
use session_kit.Labels.{session_state, state_word, status_of, stalled_state}
use session_kit.Selection.Grammar.{split_at, partition, is_digits, int_of, strip_left, strip_right}
use session_kit.Picker.Order.{
  comes_before, compare_key, canonical_session_order_key, compare_parts, words,
}
use session_kit.Picker.Marks.{
  is_filter, without_spaces, append_new, append_up, append_down, append_range, read_single,
  read_fragment, read_fragments, parse_marks, after, matches_from, matches,
}
use session_kit.Picker.Model.{Session, Inventory, haystack, by_number}
use session_kit.Picker.Actions.{close}
use session_kit.Picker.Rows.{
  Row, plain_row, new_session, projects, closed_sessions, help, needle_of, order_sessions, row_for,
  session_rows, machine_rows, build_rows,
}
use session_kit.Picker.State.{
  View, no_kind, Picker, active_pinned, list_rows, visible_rows, on_screen, marks, input_note,
  found_in,
}
use session_kit.Picker.Events.{toggle_mark}
use session_kit.Picker.Toggled.{Typed, others, parse_marks-toggle_mark}
use session_kit.Picker.Matching.{IsInside, matches-IsInside}
use session_kit.Picker.Held.{OncePinned, Holds, is_pinned, order_sessions-Holds}
use session_kit.Picker.Enter.{sessions_of, enter}
use session_kit.Picker.Panels.{key_of}
use session_kit.Picker.App.{Event, key, escape_key, char, refresh, drawn, steps}
use session_kit.Picker.Leave.{depth, escapes, escapes-leaving}
use session_kit.Picker.Left.{asked, steps-leaving}
use session_kit.Picker.Closing.{plans_of, enter-closes_marked}
use session_kit.Picker.Exact.{AllProved, enter-AllProved}

abbrev session : String → ℕ → Session
session k n = record {
  key = k;
  number = some n;
  title = k;
  provider = "shell";
  account_alias = none;
  origin = "human";
  availability = "ready";
  agent_status = "running";
  quiet_seconds = none;
  cwd = "";
  shpool_id = some k;
  raw = object (field "shpool_id" (str k) (field "availability" (str "ready") Fields.end));
}

abbrev ledger : Session
ledger = session "ledger" 1

abbrev audit : Session
audit = session "audit" 2

abbrev both : Inventory
both = record { sessions = ledger ∷ audit ∷ []; source = "live"; stale = false }

-- A later snapshot, in which the first session is gone and its number has passed on.
abbrev later_on : Inventory
later_on = record { sessions = session "fresh" 1 ∷ audit ∷ []; source = "live"; stale = false }

abbrev screen : String → Picker
screen text = record {
  inventory = both;
  closed = [];
  projects = [];
  accounts = λ _. [];
  models = λ _. [];
  self_session_id = none;
  threshold = 2700;
  view = View.list;
  input_text = text;
  cursor_key = none;
  cursor_fallback = 0;
  machine_expanded = false;
  panel = none;
  status = "";
  top = 0;
  pinned = [];
  cursor_moved_at_ms = 0;
  seen_at = [];
  panel_targets = [];
  panel_kind = no_kind;
  pending_provider = "";
  pending_project = "";
  body_height = 10;
  leaving = false;
}

abbrev waits : List Event
waits = refresh later_on [] 6000 ∷ drawn 0 7 ∷ []

all_shown : input_note ascii (screen "1,2") 5000 ≡ ""
unfolding input_note on_screen list_rows active_pinned build_rows session_rows machine_rows
    order_sessions sort_by place_in needle_of row_for comes_before compare_key
    canonical_session_order_key compare_text compare_parts words session_state state_word status_of
    stalled_state is_filter parse_marks read_fragments read_fragment read_single append_range
    append_up append_new without_spaces split_at partition is_digits int_of strip_left strip_right
    clean_text get matches matches_from after haystack string_dec
all_shown = refl

both_marked : sessions_of both (marks ascii (screen "1,2") 5000) ≡ ledger ∷ audit ∷ []
unfolding marks by_number on_screen list_rows active_pinned build_rows session_rows machine_rows
    order_sessions sort_by place_in needle_of row_for comes_before compare_key
    canonical_session_order_key compare_text compare_parts words session_state state_word status_of
    stalled_state is_filter parse_marks read_fragments read_fragment read_single append_range
    append_up append_new without_spaces split_at partition is_digits int_of strip_left strip_right
    clean_text get matches matches_from after haystack string_dec
both_marked = refl

enter-closes_marked_example :
    plans_of (enter ascii 7000 (steps ascii waits (enter ascii 5000 (screen "1,2")).0))
    ≡ map close (
        found_in
          (steps ascii waits (enter ascii 5000 (screen "1,2")).0).inventory
          (map key_of (ledger ∷ audit ∷ [])))
enter-closes_marked_example =
    enter-closes_marked ascii (screen "1,2") 5000 7000 waits ledger (audit ∷ []) refl refl all_shown
      both_marked (tt, (tt, tt))

enter-AllProved_example : AllProved (screen "") (enter ascii 5000 (screen ""))
enter-AllProved_example = enter-AllProved ascii (screen "") 5000

escapes-leaving_example :
    (depth (screen "lsa") ≤ 3)
    × ((escapes 2 (screen "lsa")).leaving ≡ (false || ltb (depth (screen "lsa")) 2))
escapes-leaving_example = escapes-leaving 2 (screen "lsa")

abbrev presses : List Event
presses = key (char "q") 5000 ∷ key escape_key 5001 ∷ key (char "q") 5002 ∷ []

steps-leaving_example :
    (steps ascii presses (screen "lsa")).leaving ≡ (false || asked ascii presses (screen "lsa"))
steps-leaving_example = steps-leaving ascii presses (screen "lsa")

two-Typed : Typed (screen "1,2") (1 ∷ 2 ∷ [])
unfolding is_filter parse_marks read_fragments read_fragment read_single append_new without_spaces
    split_at partition is_digits int_of string_dec
two-Typed = inr (refl, refl)

parse_marks-toggle_mark_example :
    (contains 2 (1 ∷ 2 ∷ []) ≡ true
      → parse_marks (toggle_mark ascii 2 5000 (screen "1,2")).input_text
        ≡ (others 2 (1 ∷ 2 ∷ []), []))
    × (contains 2 (1 ∷ 2 ∷ []) ≡ false
        → parse_marks (toggle_mark ascii 2 5000 (screen "1,2")).input_text
          ≡ ((1 ∷ 2 ∷ []) ++ (2 ∷ []), []))
parse_marks-toggle_mark_example =
    parse_marks-toggle_mark ascii 2 5000 (screen "1,2") (1 ∷ 2 ∷ []) two-Typed

-- Both sessions are ready, so the second, whose name is first, comes first.
abbrev shown : List Row
shown =
    row_for [] audit
    ∷ row_for [] ledger
    ∷ plain_row "new-session" new_session
    ∷ plain_row "projects" projects
    ∷ plain_row "closed" closed_sessions
    ∷ plain_row "help" help
    ∷ []

rows_shown : visible_rows ascii (screen "") 5000 ≡ shown
unfolding visible_rows list_rows active_pinned build_rows session_rows machine_rows order_sessions
    sort_by place_in needle_of row_for comes_before compare_key canonical_session_order_key
    compare_text compare_parts words session_state state_word status_of stalled_state is_filter
    parse_marks read_fragments read_fragment read_single append_range append_up append_down
    append_new without_spaces split_at partition is_digits int_of strip_left strip_right clean_text
    get matches matches_from after haystack string_dec
rows_shown = refl

abbrev on_ledger : Picker
on_ledger = record (screen "") { cursor_key = some "ledger" }

ledger_shown : Any (λ r. r.key ≡ "ledger") (visible_rows ascii on_ledger 5000)
unfolding visible_rows list_rows active_pinned build_rows session_rows machine_rows order_sessions
    sort_by place_in needle_of row_for comes_before compare_key canonical_session_order_key
    compare_text compare_parts words session_state state_word status_of stalled_state is_filter
    parse_marks read_fragments read_fragment read_single append_range append_up append_down
    append_new without_spaces split_at partition is_digits int_of strip_left strip_right clean_text
    get matches matches_from after haystack string_dec
ledger_shown = inr (inl refl)

matches-IsInside_example :
    (matches ascii "l s a" "ledger sync audit" ≡ true)
    ↔ IsInside (without_spaces (ascii.casefold "l s a")) "ledger sync audit"
matches-IsInside_example = matches-IsInside ascii "l s a" "ledger sync audit"

abbrev named_audit : Session → Bool
named_audit s = s.key =~ "audit"

abbrev pins : List String
pins = "gone" ∷ "ledger" ∷ []

pins_once : OncePinned pins
unfolding string_dec
pins_once = (refl, (refl, tt))

-- A session that is not pinned stands behind one that is.
order_sessions-Holds_example :
    IsSorted (Holds pins) (order_sessions ascii 2700 (audit ∷ ledger ∷ []) pins)
    × (keep_if (λ s. not (is_pinned pins s)) (order_sessions ascii 2700 (audit ∷ ledger ∷ []) pins)
        ≡ keep_if
            (λ s. not (is_pinned pins s))
            (order_sessions ascii 2700 (audit ∷ ledger ∷ []) []))
    × (tally named_audit (order_sessions ascii 2700 (audit ∷ ledger ∷ []) pins)
        ≡ tally named_audit (audit ∷ ledger ∷ []))
order_sessions-Holds_example =
    order_sessions-Holds ascii 2700 named_audit (audit ∷ ledger ∷ []) "gone" ("ledger" ∷ [])
      pins_once
