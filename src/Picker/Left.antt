-- ===== src/Picker/Left.antt =====
-- lib/sessionkit_tui: leaving the picker, over any sequence of events.
use Prim.Native.Char.{Char, code}
use session_kit.Base.{
  ℕ, ◌≡◌, refl, ◌⊎◌, inl, inr, String, Bool, true, false, ◌&&◌, ◌||◌, List, [], ◌∷◌, Option, none,
  some, ◌==◌, ◌=~◌, Bool-cases, Option-cases, arith,
}
use session_kit.Common.Text.{Unicode, strip}
use session_kit.Picker.Model.{Panel}
use session_kit.Picker.Rows.{Row}
use session_kit.Picker.State.{Picker, visible_rows}
use session_kit.Picker.Events.{
  noted, highlight, toggle_mark, back_key, quit_key, leave, escape, close_panel, to_list,
  set_inventory, set_closed, in_list, in_help, has_panel,
}
use session_kit.Picker.App.{
  Key, return, footer, escape_key, ctrl_d, char, up, down, page_up, page_down, home, end,
  backspace_key, wheel_up, wheel_down, click_at, Event, key, finished, refresh, drawn, click_item,
  click_row, find_row, click_list, click, action_finished, letter, handle, redrawn, step, steps,
}
use session_kit.Picker.Leave.{depth, escape-Steps}
use session_kit.Picker.Ways.{
  Stays, enter-Stays, panel_enter-Stays, activate-Stays, move-leaving, wheel-leaving,
  type_text-leaving, backspace-leaving,
}

-- The keys that ask to leave: Ctrl-D, and where nothing is left to step out of, Esc and `q`.
abbrev pub asks_to_leave : Event → Picker → Bool
asks_to_leave (key ctrl_d now) p = true
asks_to_leave (key escape_key now) p = depth p == 0
asks_to_leave (key (char c) now) p = code c == b'q' && depth p == 0
asks_to_leave _ p = false

module _ (u : Unicode) where
  click_item-Stays :
      (wanted : String) (panel : Panel) (p : Picker) → Stays p (click_item u wanted panel p)
  unfolding click_item Stays
  click_item-Stays wanted panel p = ground (arith, panel_enter-Stays u panel p)

  click_row-Stays :
      (column index : ℕ) (row : Row) (now : ℕ) (p : Picker)
      → Stays p (click_row u column index row now p)
  unfolding click_row Stays highlight toggle_mark noted
  click_row-Stays column index row now p = ground (arith, activate-Stays u row p)

  click_list-Stays :
      (k : String) (column now : ℕ) (p : Picker) → Stays p (click_list u k column now p)
  unfolding click_list Stays
  click_list-Stays k column now p = elim (Option-cases (find_row k 0 (visible_rows u p now))) [
    | inl e ↦ rw (e, click_list) refl
    | inr ((index, row), e) ↦ rw (e, click_list) (click_row-Stays column index row now p)
  ]

  click-Stays :
      (line : Option String) (column now : ℕ) (p : Picker) → Stays p (click u line column now p)
  unfolding click Stays
  click-Stays none column now p = refl
  click-Stays (some k) column now p = elim (Option-cases p.panel) [
    | inl e ↦ ground (arith, click_list-Stays k column now p)
    | inr (panel, e) ↦ elim (Option-cases (strip "panel:" k)) [
      | inl f ↦ ground (arith, click_list-Stays k column now p)
      | inr (wanted, f) ↦ ground (arith, click_item-Stays wanted panel p)
    ]
  ]

  escape-asks : (p : Picker) → (escape p).leaving ≡ (p.leaving || (depth p == 0))
  escape-asks p = elim (escape-Steps p) [
    | inl (deep, left) ↦ ground arith
    | inr (deep, same) ↦ ground arith
  ]

  quit_key-cases :
      (p : Picker)
      → ((quit_key p ≡ some (leave p)) × ((depth p == 0) ≡ true))
        ⊎ ((quit_key p ≡ none) × ((depth p == 0) ≡ false))
  unfolding quit_key
  quit_key-cases p = elim (Bool-cases (has_panel p)) [
    | inl a ↦ inr (ground arith, ground arith)
    | inr a ↦ elim (Bool-cases (p.input_text =~ "")) [
      | inr b ↦ inr (ground arith, ground arith)
      | inl b ↦ elim (Bool-cases (in_list p.view)) [
        | inr c ↦ inr (ground arith, ground arith)
        | inl c ↦ inl (ground arith, ground arith)
      ]
    ]
  ]

  back_key-cases :
      (p : Picker)
      → (back_key p ≡ none) ⊎ ((q : Picker) × (back_key p ≡ some q) × (q.leaving ≡ p.leaving))
  unfolding back_key escape close_panel to_list
  back_key-cases p = elim (Option-cases p.panel) [
    | inl e ↦ elim (Bool-cases (in_help p.view)) [
      | inl f ↦ inr (to_list p, ground arith, refl)
      | inr f ↦ inl (ground arith)
    ]
    | inr (panel, e) ↦ elim (Bool-cases panel.prompt) [
      | inl f ↦ inl (ground arith)
      | inr f ↦ inr (escape p, ground arith, ground arith)
    ]
  ]

  letter-asks :
      (c : Char) (now : ℕ) (p : Picker)
      → (letter u c now p).0.leaving ≡ (p.leaving || (code c == b'q' && depth p == 0))
  unfolding letter leave
  letter-asks c now p = elim (Bool-cases (code c == b'q')) [
    | inl e ↦ elim (quit_key-cases p) [
      | inl (q, d) ↦ ground arith
      | inr (q, d) ↦ ground (arith, type_text-leaving u (String.◌∷◌ c "") now p)
    ]
    | inr e ↦ elim (back_key-cases p) [
      | inl b ↦ ground (arith, type_text-leaving u (String.◌∷◌ c "") now p)
      | inr (q, b, same) ↦ ground (arith, type_text-leaving u (String.◌∷◌ c "") now p)
    ]
  ]

  unasked : {a b : Bool} → a ≡ b → a ≡ (b || false)
  unasked e = ground arith

  handle-asks :
      (k : Key) (now : ℕ) (p : Picker)
      → (handle u k now p).0.leaving ≡ (p.leaving || asks_to_leave (key k now) p)
  unfolding handle Stays leave
  handle-asks up now p = unasked (move-leaving u _ now p)
  handle-asks down now p = unasked (move-leaving u _ now p)
  handle-asks page_up now p = unasked (move-leaving u _ now p)
  handle-asks page_down now p = unasked (move-leaving u _ now p)
  handle-asks home now p = unasked (move-leaving u _ now p)
  handle-asks end now p = unasked (move-leaving u _ now p)
  handle-asks return now p = unasked (enter-Stays u now p)
  handle-asks escape_key now p = escape-asks p
  handle-asks backspace_key now p = unasked (backspace-leaving u now p)
  handle-asks ctrl_d now p = ground arith
  handle-asks wheel_up now p = unasked (wheel-leaving u _ now p)
  handle-asks wheel_down now p = unasked (wheel-leaving u _ now p)
  handle-asks footer now p = unasked (enter-Stays u now p)
  handle-asks (char c) now p = letter-asks c now p
  handle-asks (click_at line column) now p = unasked (click-Stays line column now p)

  step-asks : (e : Event) (p : Picker) → (step u e p).leaving ≡ (p.leaving || asks_to_leave e p)
  unfolding step leave action_finished set_inventory set_closed redrawn
  step-asks (finished b ok note now) p = ground arith
  step-asks (refresh i closed now) p = ground arith
  step-asks (drawn top lines) p = ground arith
  step-asks (key k now) p = handle-asks k now p

  -- Whether some event of a sequence asks to leave at the moment that it comes.
  unfoldable pub asked : List Event → Picker → Bool
  asked [] p = false
  asked (e ∷ es) p = asks_to_leave e p || asked es (step u e p)

  -- After any events a picker has left if and only if it had left before them, or one of them was
  -- Ctrl-D, or Esc or the letter q that found no panel, no typed input and the list on the screen.
  pub steps-leaving :
      (es : List Event) (p : Picker) → (steps u es p).leaving ≡ (p.leaving || asked es p)
  unfolding steps asked
  steps-leaving [] p = ground arith
  steps-leaving (e ∷ es) p = ground (arith, step-asks e p, steps-leaving es (step u e p))
