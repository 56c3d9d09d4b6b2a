-- ===== src/Picker/State.antt =====
-- lib/sessionkit_tui/state.py: the state of the picker, and what is on its screen. `now` is the
-- moment that the clock shows.
use Prim.Native.String.{◌++◌}
use session_kit.Base.{
  ℕ, suc, ◌+◌, ◌-◌, ◌*◌, String, Bool, true, false, ◌||◌, List, [], ◌∷◌, Option, none, some, length,
  keep_if, map, any, leb, ◌==◌, ◌=~◌, if◌then◌else◌,
}
use session_kit.Base.Int.{pos}
use session_kit.Base.Assoc.{Dict, lookup}
use session_kit.Common.Text.{Unicode}
use session_kit.Picker.Marks.{is_filter, parse_marks}
use session_kit.Picker.Model.{Session, ClosedSession, Inventory, Panel, clamp, get_elem?, by_key}
use session_kit.Picker.Print.{show}
use session_kit.Picker.Rows.{Row, build_rows, build_closed_rows}

pub data View : Type 0 where
  list closed help : View

-- `panel_kind`, a text in the source.
pub data PanelKind : Type 0 where
  no_kind actions provider project closed account model color : PanelKind

-- `threshold` is the environment's, `stall_threshold_seconds()`, which the order of the list reads. The
-- field `stall` is only drawn.
pub record Picker : Type 0 where
  pub inventory : Inventory
  pub closed : List ClosedSession
  pub projects : List String
  pub accounts : String → List String
  pub models : String → List String
  pub self_session_id : Option String
  pub threshold : ℕ
  pub view : View
  pub input_text : String
  pub cursor_key : Option String
  pub cursor_fallback : ℕ
  pub machine_expanded : Bool
  pub panel : Option Panel
  pub status : String
  pub top : ℕ
  pub pinned : List String
  pub cursor_moved_at_ms : ℕ
  pub seen_at : Dict ℕ
  pub panel_targets : List String
  pub panel_kind : PanelKind
  pub pending_provider : String
  pub pending_project : String
  pub body_height : ℕ
  pub leaving : Bool

-- `self.self_session_id and session.shpool_id == self.self_session_id`
abbrev is_self : Option String → Session → Bool
is_self none s = false
is_self (some i) s = elim s.shpool_id [ none ↦ false | some j ↦ if i =~ "" then false else j =~ i ]

-- `at >= now - quiet * 1000`
abbrev is_still_seen : ℕ → ℕ → Option ℕ → Bool
is_still_seen now at none = true
is_still_seen now at (some quiet) = leb now (at + quiet * 1000)

unfoldable pub is_seen : Picker → ℕ → Session → Bool
is_seen p now s = is_self p.self_session_id s || elim (lookup s.key p.seen_at) [
  | none ↦ false
  | some at ↦ is_still_seen now at s.quiet_seconds
]

abbrev key_of : Session → String
key_of s = s.key

unfoldable pub seen_keys : Picker → ℕ → List String
seen_keys p now = map key_of (keep_if (is_seen p now) p.inventory.sessions)

abbrev pub sort_hold_ms : ℕ
sort_hold_ms = 3000

unfoldable pub active_pinned : Picker → ℕ → List String
active_pinned p now = if leb sort_hold_ms (now - p.cursor_moved_at_ms) then [] else p.pinned

abbrev pub query_of : Picker → String
query_of p = if is_filter p.input_text then p.input_text else ""

abbrev pub numbers_of : Picker → List ℕ
numbers_of p = if is_filter p.input_text then [] else (parse_marks p.input_text).0

unfoldable pub list_rows : Unicode → Picker → ℕ → List Row
list_rows u p now =
    build_rows u
      record {
        query = query_of p;
        marks = numbers_of p;
        pinned = active_pinned p now;
        machine_expanded = p.machine_expanded;
        threshold = p.threshold;
      }
      p.inventory.sessions

unfoldable pub visible_rows : Unicode → Picker → ℕ → List Row
visible_rows u p now = elim p.view [
  | View.list ↦ list_rows u p now
  | View.closed ↦ build_closed_rows u (query_of p) p.closed
  | View.help ↦ []
]

-- `number in {row.number for row in rows if row.number is not None}`
abbrev shows : ℕ → Row → Bool
shows n r = elim r.number [ none ↦ false | some m ↦ n == m ]

unfoldable pub on_screen : Unicode → Picker → ℕ → ℕ → Bool
on_screen u p now n = any (shows n) (list_rows u p now)

unfoldable pub marks : Unicode → Picker → ℕ → List ℕ
marks u p now =
    if p.input_text =~ "" || is_filter p.input_text
    then []
    else keep_if (on_screen u p now) (parse_marks p.input_text).0

-- The index of the first row with the key.
unfoldable pub index_of : String → List Row → Option ℕ
index_of k [] = none
index_of k (r ∷ rs) =
    let rest : Option ℕ = elim (index_of k rs) [ none ↦ none | some i ↦ some (suc i) ] in
    if r.key =~ k then some 0 else rest

abbrev pub index_in : Option String → ℕ → List Row → ℕ
index_in key fallback [] = 0
index_in none fallback (r ∷ rs) = clamp (length rs) fallback (pos 0)
index_in (some k) fallback (r ∷ rs) = elim (index_of k (r ∷ rs)) [
  | none ↦ clamp (length rs) fallback (pos 0)
  | some i ↦ i
]

unfoldable pub cursor_index : Unicode → Picker → ℕ → ℕ
cursor_index u p now = index_in p.cursor_key p.cursor_fallback (visible_rows u p now)

unfoldable pub current_row : Unicode → Picker → ℕ → Option Row
current_row u p now = get_elem? (visible_rows u p now) (cursor_index u p now)

-- What the input names that is not on the screen.
abbrev no_such_session : String → String
no_such_session what =
    "There is no session " ++ (what ++ " on this screen. Numbers shown here work.")

abbrev first_missing : (ℕ → Bool) → List ℕ → List String → String
first_missing shown [] [] = ""
first_missing shown [] (f ∷ fs) = no_such_session f
first_missing shown (n ∷ ns) unusable =
    let rest = first_missing shown ns unusable in if shown n then rest else no_such_session (show n)

unfoldable pub input_note : Unicode → Picker → ℕ → String
input_note u p now =
    if p.input_text =~ "" || is_filter p.input_text
    then ""
    else first_missing (on_screen u p now) (parse_marks p.input_text).0 (parse_marks p.input_text).1

-- The sessions that the panel is about and that are still there.
abbrev pub found_in : Inventory → List String → List Session
found_in i [] = []
found_in i (k ∷ ks) = elim (by_key i k) [ none ↦ found_in i ks | some s ↦ s ∷ found_in i ks ]

unfoldable pub targets : Picker → List Session
targets p = found_in p.inventory p.panel_targets
