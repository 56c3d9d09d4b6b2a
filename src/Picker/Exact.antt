-- ===== src/Picker/Exact.antt =====
-- lib/sessionkit_tui/state.py: the session that each command of Enter names.
use session_kit.Base.{
  ℕ, refl, inl, inr, String, Bool, true, false, not, ◌&&◌, List, [], ◌∷◌, Option, none, some, map,
  find?, All, ◌=~◌, Option-cases, if◌then◌else◌, string_dec,
}
use session_kit.Common.Text.{Unicode}
use session_kit.Picker.Actions.{colors_for, close, restore, new_session}
use session_kit.Picker.Model.{Session, ClosedSession, Panel, current, live}
use session_kit.Picker.Rows.{Kind, Row}
use session_kit.Picker.State.{View, PanelKind, Picker, targets, current_row, marks, input_note}
use session_kit.Picker.Events.{in_list}
use session_kit.Picker.Enter.{
  session_answer, closed_answer, types_numbers, is_subagent, session_enter, activate, row_enter,
  marks_enter, list_enter, view_enter, enter,
}
use session_kit.Picker.Panels.{
  Answer, choices, here, has_closed_key, first_or_empty, action_enter, target_enter, item_enter,
  closed_enter, provider_enter, project_enter, new_session_batch, panel_enter, rename_enter,
}
use session_kit.Picker.Closing.{plans_of}
use session_kit.Picker.Proved.{
  IsListed, IsProved, IsTarget, found_in-All, close-IsProved, open_session-IsProved,
  history-IsProved, rename-IsProved, change_account-IsProved, change_model-IsProved, color-IsProved,
}
use session_kit.Picker.Listed.{HasListed, RowListed, current_row-RowListed}

-- Every command of an answer.
abbrev pub AllProved : Picker → Answer → Type 0
AllProved p a = All (IsProved p) (plans_of a)

module _ (u : Unicode) (p : Picker) where
  both :
      (b : Bool) (x y : Answer) → AllProved p x → AllProved p y → AllProved p (if b then x else y)
  both true x y hx hy = hx
  both false x y hx hy = hy

  choices-AllProved :
      (title : String) (xs : List String) (kind : PanelKind) (empty : String)
      → AllProved p (choices title xs kind empty p)
  choices-AllProved title [] kind empty = tt
  choices-AllProved title (x ∷ xs) kind empty = tt

  closes-AllProved : (ss : List Session) → All (IsTarget p) ss → All (IsProved p) (map close ss)
  closes-AllProved [] h = tt
  closes-AllProved (s ∷ ss) h = (close-IsProved p s h.0, closes-AllProved ss h.1)

  action_enter-AllProved :
      (key : String) (s : Session) (ss : List Session)
      → All (IsTarget p) (s ∷ ss)
      → AllProved p (action_enter u key s ss p)
  unfolding action_enter
  action_enter-AllProved key s ss h = both (key =~ "close") _ _ (closes-AllProved (s ∷ ss) h) (
      both (key =~ "open") _ _ (open_session-IsProved p s h.0.0 u, tt)
        (both (key =~ "history") _ _ (history-IsProved p s h.0.0, tt)
          (both (key =~ "rename") _ _ tt (
            both (key =~ "account") _ _ (choices-AllProved _ (p.accounts s.provider) _ _) (
              both (key =~ "model") _ _ (choices-AllProved _ (p.models s.provider) _ _) (
                both (key =~ "color") _ _ (choices-AllProved _ (colors_for u s.provider) _ _)
                  tt))))))

  target_enter-AllProved :
      (kind : PanelKind) (key : String) (ss : List Session)
      → All (IsTarget p) ss
      → AllProved p (target_enter u kind key ss p)
  unfolding target_enter
  target_enter-AllProved kind key [] h = tt
  target_enter-AllProved PanelKind.no_kind key (s ∷ ss) h = tt
  target_enter-AllProved PanelKind.actions key (s ∷ ss) h = action_enter-AllProved key s ss h
  target_enter-AllProved PanelKind.provider key (s ∷ ss) h = tt
  target_enter-AllProved PanelKind.project key (s ∷ ss) h = tt
  target_enter-AllProved PanelKind.closed key (s ∷ ss) h = tt
  target_enter-AllProved PanelKind.account key (s ∷ ss) h =
      (change_account-IsProved p s h.0.0 key, tt)
  target_enter-AllProved PanelKind.model key (s ∷ ss) h = (change_model-IsProved p s h.0.0 key, tt)
  target_enter-AllProved PanelKind.color key (s ∷ ss) h = (color-IsProved p s h.0.0 key, tt)

  new_session-AllProved : (q : Picker) → AllProved p (new_session_batch q)
  unfolding new_session_batch new_session string_dec
  new_session-AllProved q = ((tt, inl refl), tt)

  provider_enter-AllProved : (key : String) → AllProved p (provider_enter key p)
  unfolding provider_enter
  provider_enter-AllProved key =
      both (p.pending_project =~ "") _ _ tt
        (new_session-AllProved (record p { pending_provider = key }))

  project_enter-AllProved : (key : String) → AllProved p (project_enter key p)
  unfolding project_enter
  project_enter-AllProved key =
      both (p.pending_provider =~ "") _ _ tt
        (new_session-AllProved (record p { pending_project = if key =~ here then "" else key }))

  restore-IsProved : (c : ClosedSession) → IsProved p (restore c)
  unfolding restore string_dec
  restore-IsProved c = (tt, inl refl)

  closed_enter-AllProved : (key : String) → AllProved p (closed_enter key p)
  unfolding closed_enter
  closed_enter-AllProved key =
      elim (Option-cases (find? (has_closed_key (first_or_empty p.panel_targets)) p.closed)) [
        | inl e ↦ rw (e, All) tt
        | inr (c, e) ↦ rw (e, All) (both (key =~ "restore") _ _ (restore-IsProved c, tt) tt)
      ]

  targets-All : All (IsTarget p) (targets p)
  unfolding targets
  targets-All = found_in-All p.inventory p.panel_targets

  item_enter-AllProved : (kind : PanelKind) (key : String) → AllProved p (item_enter u kind key p)
  unfolding item_enter
  item_enter-AllProved PanelKind.provider key = provider_enter-AllProved key
  item_enter-AllProved PanelKind.project key = project_enter-AllProved key
  item_enter-AllProved PanelKind.closed key = closed_enter-AllProved key
  item_enter-AllProved PanelKind.no_kind key =
      target_enter-AllProved PanelKind.no_kind key _ targets-All
  item_enter-AllProved PanelKind.actions key =
      target_enter-AllProved PanelKind.actions key _ targets-All
  item_enter-AllProved PanelKind.account key =
      target_enter-AllProved PanelKind.account key _ targets-All
  item_enter-AllProved PanelKind.model key =
      target_enter-AllProved PanelKind.model key _ targets-All
  item_enter-AllProved PanelKind.color key =
      target_enter-AllProved PanelKind.color key _ targets-All

  rename_enter-AllProved :
      (title : String) (ss : List Session)
      → All (IsTarget p) ss
      → AllProved p (rename_enter title ss p)
  unfolding rename_enter
  rename_enter-AllProved title [] h = tt
  rename_enter-AllProved title (s ∷ ss) h =
      both (title =~ "") _ _ tt (rename-IsProved p s h.0.0 title, tt)

  panel_enter-AllProved : (panel : Panel) → AllProved p (panel_enter u panel p)
  unfolding panel_enter
  panel_enter-AllProved panel =
      both panel.prompt _ _ (rename_enter-AllProved _ (targets p) targets-All)
        (elim (Option-cases (current panel)) [
          | inl e ↦ rw (e, All) tt
          | inr (key, e) ↦ rw (e, All) (item_enter-AllProved p.panel_kind key)
        ])

  session_enter-AllProved :
      (s : Session) → IsListed p.inventory s → AllProved p (session_enter u s p)
  unfolding session_enter
  session_enter-AllProved s h =
      both (is_subagent s) _ _ tt
        (both (live p.inventory) _ _ (open_session-IsProved p s h u, tt) tt)

  activate-AllProved : (row : Row) → RowListed p.inventory row → AllProved p (activate u row p)
  unfolding activate
  activate-AllProved row h = of_kind row.kind (of_session row.session h)
    where
      of_session :
          (o : Option Session) → HasListed p.inventory o → AllProved p (session_answer u p o)
      of_session none k = tt
      of_session (some s) k = session_enter-AllProved s k

      of_closed : (o : Option ClosedSession) → AllProved p (closed_answer u p o)
      of_closed none = tt
      of_closed (some c) = tt

      of_kind :
          (k : Kind)
          → AllProved p (session_answer u p row.session)
          → AllProved p (activate u (record row { kind = k }) p)
      of_kind Kind.a_session k = k
      of_kind Kind.machine_count k = tt
      of_kind Kind.new_session k = tt
      of_kind Kind.projects k = tt
      of_kind Kind.closed_sessions k = tt
      of_kind Kind.help k = tt
      of_kind Kind.a_closed_session k = of_closed row.closed

  row_enter-AllProved : (now : ℕ) → AllProved p (row_enter u (current_row u p now) p)
  unfolding row_enter
  row_enter-AllProved now = elim (Option-cases (current_row u p now)) [
    | inl e ↦ rw (e, All) tt
    | inr (row, e) ↦ rw (e, All) (activate-AllProved row (current_row-RowListed u p now row e))
  ]

  marks_enter-AllProved : (ns : List ℕ) (now : ℕ) → AllProved p (marks_enter u ns now p)
  unfolding marks_enter
  marks_enter-AllProved [] now = row_enter-AllProved now
  marks_enter-AllProved (n ∷ ns) now = both (in_list p.view) _ _ tt (row_enter-AllProved now)

  list_enter-AllProved : (now : ℕ) → AllProved p (list_enter u now p)
  unfolding list_enter
  list_enter-AllProved now =
      both (types_numbers p && not (input_note u p now =~ "")) _ _ tt
        (marks_enter-AllProved (marks u p now) now)

  -- Every command that Enter returns and that runs with a proof names a session that is listed, by
  -- its key and its ID; and one that closes names a session that the open panel is about.
  pub enter-AllProved : (now : ℕ) → AllProved p (enter u now p)
  unfolding enter view_enter
  enter-AllProved now = of_panel p.panel
    where
      of_view : (v : View) → AllProved p (view_enter u v now p)
      of_view View.list = list_enter-AllProved now
      of_view View.closed = list_enter-AllProved now
      of_view View.help = tt

      of_panel :
          (o : Option Panel)
          → AllProved p (elim o as (λ _. Answer) [
            | some panel ↦ panel_enter u panel p
            | none ↦ view_enter u p.view now p
          ])
      of_panel (some panel) = panel_enter-AllProved panel
      of_panel none = of_view p.view
