-- ===== src/Picker/Enter.antt =====
-- lib/sessionkit_tui/state.py: Enter, the panels that it opens and the commands that it returns.
use session_kit.Base.{
  ℕ, Bool, ◌&&◌, ◌||◌, not, List, [], ◌∷◌, Option, none, some, ◌=~◌, if◌then◌else◌,
}
use session_kit.Json.{is_true, is_mapping, get}
use session_kit.Common.Text.{Unicode}
use session_kit.Picker.Actions.{nothing_changed, open_session}
use session_kit.Picker.Marks.{is_filter}
use session_kit.Picker.Model.{Session, ClosedSession, Inventory, live, by_number}
use session_kit.Picker.Rows.{
  Kind, a_session, machine_count, projects, closed_sessions, a_closed_session, Row,
}
use session_kit.Picker.State.{View, Picker, current_row, marks, input_note}
use session_kit.Picker.Events.{in_list}
use session_kit.Picker.Panels.{
  Answer, open_action_panel, open_closed_panel, open_project_panel, open_provider_panel,
  panel_enter, run, says,
}

-- `raw["is_subagent"] is True` or `raw["parent_session"]` is an object
abbrev pub is_subagent : Session → Bool
is_subagent s = is_true (get "is_subagent" s.raw) || is_mapping (get "parent_session" s.raw)

unfoldable pub session_enter : Unicode → Session → Picker → Answer
session_enter u s p =
    if is_subagent s
    then says "Subagent sessions stay with their parent. Nothing changed." p
    else if live p.inventory
    then run p (open_session u s) s.key
    else says nothing_changed p

abbrev pub session_answer : Unicode → Picker → Option Session → Answer
session_answer u p none = (p, none)
session_answer u p (some s) = session_enter u s p

abbrev pub closed_answer : Unicode → Picker → Option ClosedSession → Answer
closed_answer u p none = (p, none)
closed_answer u p (some c) = (open_closed_panel u c p, none)

unfoldable pub activate : Unicode → Row → Picker → Answer
activate u row p = elim row.kind [
  | a_session ↦ session_answer u p row.session
  | machine_count ↦ (record p { machine_expanded = not p.machine_expanded; status = "" }, none)
  | Kind.new_session ↦ (open_provider_panel p, none)
  | projects ↦ (open_project_panel p, none)
  | closed_sessions ↦ (
    record p { view = View.closed; cursor_key = none; cursor_fallback = 0; top = 0; status = "" },
    none,
  )
  | Kind.help ↦ (record p { view = View.help; status = "" }, none)
  | a_closed_session ↦ closed_answer u p row.closed
]

-- Whether numbers are typed into the list, and its note on them.
abbrev pub types_numbers : Picker → Bool
types_numbers p = in_list p.view && (not (p.input_text =~ "") && not (is_filter p.input_text))

abbrev pub sessions_of : Inventory → List ℕ → List Session
sessions_of i [] = []
sessions_of i (n ∷ ns) = elim (by_number i n) [
  | none ↦ sessions_of i ns
  | some s ↦ s ∷ sessions_of i ns
]

unfoldable pub row_enter : Unicode → Option Row → Picker → Answer
row_enter u none p = (p, none)
row_enter u (some row) p = activate u row p

unfoldable pub marks_enter : Unicode → List ℕ → ℕ → Picker → Answer
marks_enter u [] now p = row_enter u (current_row u p now) p
marks_enter u (n ∷ ns) now p =
    if in_list p.view
    then (open_action_panel (sessions_of p.inventory (n ∷ ns)) p, none)
    else row_enter u (current_row u p now) p

unfoldable pub list_enter : Unicode → ℕ → Picker → Answer
list_enter u now p =
    if types_numbers p && not (input_note u p now =~ "")
    then says (input_note u p now) p
    else marks_enter u (marks u p now) now p

unfoldable pub view_enter : Unicode → View → ℕ → Picker → Answer
view_enter u View.list now p = list_enter u now p
view_enter u View.closed now p = list_enter u now p
view_enter u View.help now p = (record p { view = View.list }, none)

unfoldable pub enter : Unicode → ℕ → Picker → Answer
enter u now p = elim p.panel [
  | some panel ↦ panel_enter u panel p
  | none ↦ view_enter u p.view now p
]
