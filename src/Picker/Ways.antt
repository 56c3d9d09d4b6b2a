-- ===== src/Picker/Ways.antt =====
-- lib/sessionkit_tui: which events leave the picker.
use session_kit.Base.{
  ℕ, ◌+◌, ◌≡◌, refl, inl, inr, String, List, [], ◌∷◌, Option, none, some, ltb, leb, Bool-cases,
  Option-cases, arith,
}
use session_kit.Base.Int.{ℤ}
use session_kit.Common.Text.{Unicode}
use session_kit.Picker.Model.{Session, Panel, current}
use session_kit.Picker.Rows.{Row}
use session_kit.Picker.State.{PanelKind, Picker, targets, current_row, marks, visible_rows}
use session_kit.Picker.Events.{
  move_in, move, follow, wheel_in, wheel, type_text, noted, backspace, highlight, in_list,
}
use session_kit.Picker.Enter.{
  session_enter, activate, row_enter, marks_enter, list_enter, view_enter, enter,
}
use session_kit.Picker.Panels.{
  Answer, open_action_panel, open_closed_panel, open_provider_panel, open_project_panel,
  new_session_batch, provider_enter, project_enter, closed_enter, action_enter, target_enter,
  item_enter, rename_enter, panel_enter,
}

unfoldable pub Stays : Picker → Answer → Type 0
Stays p a = a.0.leaving ≡ p.leaving

module _ (u : Unicode) where
  action_enter-Stays :
      (key : String) (s : Session) (ss : List Session) (p : Picker)
      → Stays p (action_enter u key s ss p)
  unfolding action_enter Stays
  action_enter-Stays key s ss p = ground arith

  provider_enter-Stays : (key : String) (p : Picker) → Stays p (provider_enter key p)
  unfolding provider_enter new_session_batch open_project_panel Stays
  provider_enter-Stays key p = ground arith

  project_enter-Stays : (key : String) (p : Picker) → Stays p (project_enter key p)
  unfolding project_enter new_session_batch open_provider_panel Stays
  project_enter-Stays key p = ground arith

  closed_enter-Stays : (key : String) (p : Picker) → Stays p (closed_enter key p)
  unfolding closed_enter Stays
  closed_enter-Stays key p = ground arith

  target_enter-Stays :
      (kind : PanelKind) (key : String) (ss : List Session) (p : Picker)
      → Stays p (target_enter u kind key ss p)
  unfolding target_enter Stays
  target_enter-Stays kind key [] p = refl
  target_enter-Stays kind key (s ∷ ss) p = ground (arith, action_enter-Stays key s ss p)

  pub move-leaving : (delta : ℤ) (now : ℕ) (p : Picker) → (move u delta now p).leaving ≡ p.leaving
  unfolding move move_in highlight
  move-leaving delta now p = ground arith

  item_enter-Stays :
      (kind : PanelKind) (key : String) (p : Picker) → Stays p (item_enter u kind key p)
  unfolding item_enter Stays
  item_enter-Stays kind key p = ground (
    arith,
    provider_enter-Stays key p,
    project_enter-Stays key p,
    closed_enter-Stays key p,
    target_enter-Stays kind key (targets p) p,
  )

  rename_enter-Stays :
      (title : String) (ss : List Session) (p : Picker) → Stays p (rename_enter title ss p)
  unfolding rename_enter Stays
  rename_enter-Stays title [] p = refl
  rename_enter-Stays title (s ∷ ss) p = ground arith

  pub panel_enter-Stays : (panel : Panel) (p : Picker) → Stays p (panel_enter u panel p)
  unfolding panel_enter Stays current
  panel_enter-Stays panel p = elim (Bool-cases panel.prompt) [
    | inl e ↦ rw e (rename_enter-Stays _ (targets p) p)
    | inr e ↦ elim (Option-cases (current panel)) [
      | inl f ↦ rw (e, f) refl
      | inr (key, f) ↦ rw (e, f) (item_enter-Stays p.panel_kind key p)
    ]
  ]

  pub activate-Stays : (row : Row) (p : Picker) → Stays p (activate u row p)
  unfolding activate session_enter open_provider_panel open_project_panel open_closed_panel Stays
  activate-Stays row p = ground arith

  row_enter-Stays : (row : Option Row) (p : Picker) → Stays p (row_enter u row p)
  unfolding row_enter Stays
  row_enter-Stays none p = refl
  row_enter-Stays (some row) p = activate-Stays row p

  open_action_panel-leaving :
      (ss : List Session) (p : Picker) → (open_action_panel ss p).leaving ≡ p.leaving
  unfolding open_action_panel
  open_action_panel-leaving [] p = refl
  open_action_panel-leaving (s ∷ ss) p = refl

  marks_enter-Stays : (ns : List ℕ) (now : ℕ) (p : Picker) → Stays p (marks_enter u ns now p)
  unfolding marks_enter Stays
  marks_enter-Stays [] now p = row_enter-Stays (current_row u p now) p
  marks_enter-Stays (n ∷ ns) now p = elim (Bool-cases (in_list p.view)) [
    | inl e ↦ rw e (open_action_panel-leaving _ p)
    | inr e ↦ rw e (row_enter-Stays (current_row u p now) p)
  ]

  pub enter-Stays : (now : ℕ) (p : Picker) → Stays p (enter u now p)
  unfolding enter view_enter list_enter Stays
  enter-Stays now p = elim (Option-cases p.panel) [
    | inl e ↦ (ground (arith, marks_enter-Stays (marks u p now) now p))
    | inr (panel, e) ↦ ground (arith, panel_enter-Stays panel p)
  ]

  follow-leaving : (index : ℕ) (now : ℕ) (p : Picker) → (follow u index now p).leaving ≡ p.leaving
  unfolding follow
  follow-leaving index now p = elim (Bool-cases (ltb index p.top)) [
    | inl e ↦ rw e (move-leaving _ now p)
    | inr e ↦ elim (Bool-cases (leb (p.top + p.body_height) index)) [
      | inl f ↦ rw (e, f) (move-leaving _ now p)
      | inr f ↦ rw (e, f) refl
    ]
  ]

  wheel_in-leaving :
      (rows : List Row) (delta : ℤ) (now : ℕ) (p : Picker)
      → (wheel_in u rows delta now p).leaving ≡ p.leaving
  unfolding wheel_in
  wheel_in-leaving [] delta now p = refl
  wheel_in-leaving (r ∷ rs) delta now p = follow-leaving _ now _

  pub wheel-leaving : (delta : ℤ) (now : ℕ) (p : Picker) → (wheel u delta now p).leaving ≡ p.leaving
  unfolding wheel
  wheel-leaving delta now p = wheel_in-leaving (visible_rows u p now) delta now p

  pub type_text-leaving :
      (text : String) (now : ℕ) (p : Picker) → (type_text u text now p).leaving ≡ p.leaving
  unfolding type_text noted
  type_text-leaving text now p = ground arith

  pub backspace-leaving : (now : ℕ) (p : Picker) → (backspace u now p).leaving ≡ p.leaving
  unfolding backspace noted
  backspace-leaving now p = ground arith
