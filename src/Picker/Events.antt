-- ===== src/Picker/Events.antt =====
-- lib/sessionkit_tui/state.py: the events that change the screen, without Enter and the mouse.
use Prim.Native.String.{◌++◌}
use session_kit.Base.{
  ℕ, suc, ◌+◌, ◌-◌, String, Bool, true, false, ◌&&◌, not, List, [], ◌∷◌, ◌++◌ as ◌⊕◌, Option, none,
  some, length, keep_if, ltb, leb, ◌==◌, ◌=~◌, if◌then◌else◌,
}
use session_kit.Base.Int.{ℤ, pos, negsuc}
use session_kit.Common.Text.{Unicode}
use session_kit.Picker.Actions.{nothing_changed}
use session_kit.Picker.Marks.{is_filter, parse_marks}
use session_kit.Picker.Model.{ClosedSession, Inventory, Panel, moved, clamp, get_elem?}
use session_kit.Picker.Print.{print_marks}
use session_kit.Picker.Rows.{a_session, Row}
use session_kit.Picker.State.{View, no_kind, Picker, visible_rows, cursor_index, input_note}

-- The keys of the rows that are sessions.
unfoldable pub session_keys : List Row → List String
session_keys [] = []
session_keys (r ∷ rs) =
    let rest = session_keys rs in elim r.kind [ a_session ↦ r.key ∷ rest | _ ↦ rest ]

-- The highlight is on the row with that index, and the list holds still.
unfoldable pub highlight : ℕ → List Row → ℕ → Row → Picker → Picker
highlight now rows index row p = record p {
  cursor_key = some row.key;
  cursor_fallback = index;
  pinned = session_keys rows;
  cursor_moved_at_ms = now;
}

unfoldable pub move_in : List Row → ℕ → ℤ → ℕ → Picker → Picker
move_in [] index delta now p = p
move_in (r ∷ rs) index delta now p = elim (get_elem? (r ∷ rs) (clamp (length rs) index delta)) [
  | none ↦ p
  | some row ↦ highlight now (r ∷ rs) (clamp (length rs) index delta) row p
]

unfoldable pub move : Unicode → ℤ → ℕ → Picker → Picker
move u delta now p = elim p.panel [
  | some panel ↦ record p { panel = some (moved panel delta) }
  | none ↦ move_in (visible_rows u p now) (cursor_index u p now) delta now p
]

-- The highlight follows the part of the list that is shown.
unfoldable pub follow : Unicode → ℕ → ℕ → Picker → Picker
follow u index now p =
    if ltb index p.top
    then move u (pos (p.top - index)) now p
    else if leb (p.top + p.body_height) index
    then move u (negsuc (index - (p.top + p.body_height))) now p
    else p

unfoldable pub wheel_in : Unicode → List Row → ℤ → ℕ → Picker → Picker
wheel_in u [] delta now p = p
wheel_in u (r ∷ rs) delta now p =
    let scrolled = record p { top = clamp (suc (length rs) - p.body_height) p.top delta } in
    follow u (cursor_index u scrolled now) now scrolled

unfoldable pub wheel : Unicode → ℤ → ℕ → Picker → Picker
wheel u delta now p = wheel_in u (visible_rows u p now) delta now p

-- The panel, if it asks for a text.
unfoldable pub prompt_of : Picker → Option Panel
prompt_of p = elim p.panel [ none ↦ none | some panel ↦ if panel.prompt then some panel else none ]

-- `self.status = self._input_note()`
unfoldable pub noted : Unicode → ℕ → Picker → Picker
noted u now p = record p { status = input_note u p now }

unfoldable pub type_text : Unicode → String → ℕ → Picker → Picker
type_text u text now p = elim (prompt_of p) [
  | some panel ↦ record p { panel = some (record panel { entry = panel.entry ++ text }) }
  | none ↦ record (noted u now (record p { input_text = p.input_text ++ text })) { top = 0 }
]

-- `text[:-1]`
unfoldable pub but_last : String → String
but_last String.[] = ""
but_last (String.◌∷◌ c s) = let rest = but_last s in if s =~ "" then "" else String.◌∷◌ c rest

unfoldable pub backspace : Unicode → ℕ → Picker → Picker
backspace u now p = elim (prompt_of p) [
  | some panel ↦ record p { panel = some (record panel { entry = but_last panel.entry }) }
  | none ↦ noted u now (record p { input_text = but_last p.input_text })
]

unfoldable pub leave : Picker → Picker
leave p = record p { leaving = true }

-- Out of a panel.
unfoldable pub close_panel : Picker → Picker
close_panel p = record p {
  panel = none;
  panel_targets = [];
  panel_kind = no_kind;
  pending_provider = "";
  pending_project = "";
  status = nothing_changed;
}

-- Back to the list from the second screens.
unfoldable pub to_list : Picker → Picker
to_list p = record p { view = View.list; status = "" }

unfoldable pub escape_view : View → Picker → Picker
escape_view View.list p = leave p
escape_view View.closed p = to_list p
escape_view View.help p = to_list p

unfoldable pub escape : Picker → Picker
escape p = elim p.panel [
  | some panel ↦ close_panel p
  | none ↦
      if p.input_text =~ "" then escape_view p.view p else record p { input_text = ""; status = "" }
]

abbrev pub in_help : View → Bool
in_help View.help = true
in_help _ = false

abbrev pub in_list : View → Bool
in_list View.list = true
in_list _ = false

-- The key does something, or else it is a letter.
unfoldable pub back_key : Picker → Option Picker
back_key p = elim p.panel [
  | some panel ↦ if panel.prompt then none else some (escape p)
  | none ↦ if in_help p.view then some (to_list p) else none
]

abbrev pub has_panel : Picker → Bool
has_panel p = elim p.panel [ none ↦ false | some _ ↦ true ]

unfoldable pub quit_key : Picker → Option Picker
quit_key p =
    if not (has_panel p) && (p.input_text =~ "" && in_list p.view) then some (leave p) else none

-- A refresh replaces the facts and never the place a person is in.
unfoldable pub set_inventory : Unicode → Inventory → ℕ → Picker → Picker
set_inventory u i now p =
    let q = record p { inventory = i } in
    elim p.cursor_key [
      | none ↦ q
      | some _ ↦ if in_list p.view then record q { cursor_fallback = cursor_index u q now } else q
    ]

unfoldable pub set_closed : List ClosedSession → Picker → Picker
set_closed closed p = record p { closed = closed }

-- `[value for value in numbers if value != number]`, and the number where it was not there.
unfoldable pub toggled : ℕ → List ℕ → List ℕ
toggled n numbers =
    let chosen = keep_if (λ v. not (v == n)) numbers in
    if length chosen == length numbers then chosen ⊕ (n ∷ []) else chosen

-- `if self.is_filter: self.input_text = ""`
abbrev pub marks_text : String → String
marks_text text = if is_filter text then "" else text

unfoldable pub toggle_mark : Unicode → ℕ → ℕ → Picker → Picker
toggle_mark u n now p =
    noted u now
      (record p { input_text = print_marks (toggled n (parse_marks (marks_text p.input_text)).0) })
