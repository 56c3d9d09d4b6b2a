-- ===== src/Picker/App.antt =====
-- lib/sessionkit_tui/state.py: the mouse and the end of a command. app.py: which event a key is.
-- What a screen line stands for, the frame's `row_lines`, is an argument of a click.
use Prim.Native.Char.{Char, code}
use Prim.Native.Nat.{max}
use session_kit.Base.{
  ℕ, suc, ◌-◌, String, Bool, true, false, ◌&&◌, not, List, [], ◌∷◌, Option, none, some, leb, ◌==◌,
  ◌=~◌, if◌then◌else◌,
}
use session_kit.Base.Int.{pos, negsuc}
use session_kit.Base.Assoc.{insert}
use session_kit.Common.Text.{Unicode, strip}
use session_kit.Picker.Model.{ClosedSession, Inventory, Panel}
use session_kit.Picker.Rows.{Row}
use session_kit.Picker.State.{no_kind, Picker, visible_rows}
use session_kit.Picker.Events.{
  highlight, move, wheel, type_text, backspace, leave, escape, back_key, quit_key, set_inventory,
  set_closed, toggle_mark,
}
use session_kit.Picker.Enter.{activate, enter}
use session_kit.Picker.Panels.{Batch, Answer, panel_enter}

-- The index of the first item with the key.
unfoldable pub item_index : String → List String → Option ℕ
item_index k [] = none
item_index k (x ∷ xs) =
    let rest : Option ℕ = elim (item_index k xs) [ none ↦ none | some i ↦ some (suc i) ] in
    if x =~ k then some 0 else rest

unfoldable pub click_item : Unicode → String → Panel → Picker → Answer
click_item u wanted panel p = elim (item_index wanted panel.items) [
  | none ↦ (p, none)
  | some i ↦
      if i == panel.index
      then panel_enter u panel p
      else (record p { panel = some (record panel { index = i }) }, none)
]

abbrev is_at : Option String → String → Bool
is_at none k = false
is_at (some c) k = c =~ k

abbrev markable : Row → Bool
markable r = elim r.number [ none ↦ false | some _ ↦ true ]

abbrev toggle_number : Unicode → Option ℕ → ℕ → Picker → Picker
toggle_number u none now p = p
toggle_number u (some n) now p = toggle_mark u n now p

unfoldable pub click_row : Unicode → ℕ → ℕ → Row → ℕ → Picker → Answer
click_row u column index row now p =
    if leb column 1 && markable row
    then (toggle_number u row.number now p, none)
    else if is_at p.cursor_key row.key
    then activate u row p
    else (highlight now (visible_rows u p now) index row p, none)

-- The first row with the key, and its index.
unfoldable pub find_row : String → ℕ → List Row → Option (ℕ × Row)
find_row k n [] = none
find_row k n (r ∷ rs) = let rest = find_row k (suc n) rs in if r.key =~ k then some (n, r) else rest

unfoldable pub click_list : Unicode → String → ℕ → ℕ → Picker → Answer
click_list u key column now p = elim (find_row key 0 (visible_rows u p now)) [
  | none ↦ (p, none)
  | some (index, row) ↦ click_row u column index row now p
]

unfoldable pub click : Unicode → Option String → ℕ → ℕ → Picker → Answer
click u none column now p = (p, none)
click u (some key) column now p = elim p.panel [
  | none ↦ click_list u key column now p
  | some panel ↦ elim (strip "panel:" key) [
    | none ↦ click_list u key column now p
    | some wanted ↦ click_item u wanted panel p
  ]
]

-- `note or (success if ok else failure)`
abbrev outcome_note : Batch → Bool → String → String
outcome_note b ok note = if note =~ "" then if ok then b.success else b.failure else note

unfoldable pub action_finished : Batch → Bool → String → ℕ → Picker → Picker
action_finished b ok note now p = record p {
  panel = none;
  panel_kind = no_kind;
  panel_targets = [];
  input_text = "";
  seen_at = if ok && not (b.seen_key =~ "") then insert b.seen_key now p.seen_at else p.seen_at;
  status = outcome_note b ok note;
}

-- The keys and buttons that the screen takes.
pub data Key : Type 0 where
  up down page_up page_down home end return escape_key backspace_key ctrl_d : Key
  wheel_up wheel_down footer : Key
  char : Char → Key
  click_at : Option String → ℕ → Key

abbrev quiet : Picker → Answer
quiet p = (p, none)

unfoldable pub letter : Unicode → Char → ℕ → Picker → Answer
letter u c now p =
    let typed = type_text u (String.◌∷◌ c "") now p in
    let quits = if code c == b'q' then quit_key p else none in
    let backs = if code c == b'b' then back_key p else none in
    elim quits as (λ _. Answer) [
      | some q ↦ quiet q
      | none ↦ elim backs as (λ _. Answer) [ some q ↦ quiet q | none ↦ quiet typed ]
    ]

-- `10**6`
abbrev far : ℕ
far = 1000000

unfoldable pub handle : Unicode → Key → ℕ → Picker → Answer
handle u key now p = elim key [
  | up ↦ quiet (move u (negsuc 0) now p)
  | down ↦ quiet (move u (pos 1) now p)
  | page_up ↦ quiet (move u (negsuc (max 1 (p.body_height - 1) - 1)) now p)
  | page_down ↦ quiet (move u (pos (max 1 (p.body_height - 1))) now p)
  | home ↦ quiet (move u (negsuc (far - 1)) now p)
  | end ↦ quiet (move u (pos far) now p)
  | return ↦ enter u now p
  | escape_key ↦ quiet (escape p)
  | backspace_key ↦ quiet (backspace u now p)
  | ctrl_d ↦ quiet (leave p)
  | wheel_up ↦ quiet (wheel u (negsuc 2) now p)
  | wheel_down ↦ quiet (wheel u (pos 3) now p)
  | footer ↦ enter u now p
  | char c ↦ letter u c now p
  | click_at line column ↦ click u line column now p
]

-- What reaches the picker: a key, what its command reported, or a refresh.
pub data Event : Type 0 where
  key : Key → ℕ → Event
  finished : Batch → Bool → String → ℕ → Event
  refresh : Inventory → List ClosedSession → ℕ → Event
  drawn : ℕ → ℕ → Event

-- `frame` keeps the first row that is drawn and, where a row is drawn, how many are.
unfoldable pub redrawn : ℕ → ℕ → Picker → Picker
redrawn top lines p = record p {
  top = top;
  body_height = if lines == 0 then p.body_height else max 1 lines;
}

unfoldable pub step : Unicode → Event → Picker → Picker
step u (key k now) p = (handle u k now p).0
step u (finished b ok note now) p = action_finished b ok note now p
step u (refresh i closed now) p = set_closed closed (set_inventory u i now p)
step u (drawn top lines) p = redrawn top lines p

unfoldable pub steps : Unicode → List Event → Picker → Picker
steps u [] p = p
steps u (e ∷ es) p = steps u es (step u e p)
