-- ===== src/Picker/Closing.antt =====
-- lib/sessionkit_tui/state.py: closing the sessions whose numbers a person typed.
use session_kit.Base.{
  ℕ, ◌≡◌, refl, sym, ap, subst, ◌∙◌, String, true, false, List, [], ◌∷◌, none, some, map, All,
  =~_refl, arith,
}
use session_kit.Common.Text.{Unicode}
use session_kit.Picker.Actions.{Plan, close}
use session_kit.Picker.Model.{Session, Panel, current}
use session_kit.Picker.State.{View, actions, Picker, marks, input_note, targets, found_in}
use session_kit.Picker.Events.{set_inventory, set_closed, in_list}
use session_kit.Picker.Enter.{sessions_of, marks_enter, list_enter, view_enter, enter}
use session_kit.Picker.Panels.{
  Answer, key_of, action_panel, open_action_panel, action_enter, target_enter, item_enter,
  panel_enter,
}
use session_kit.Picker.App.{Event, refresh, drawn, redrawn, step, steps}

-- The commands of an answer.
abbrev pub plans_of : Answer → List Plan
plans_of a = elim a.1 [ none ↦ [] | some b ↦ b.plans ]

-- Refreshes and drawings, which come without a key.
abbrev pub IsWaiting : Event → Type 0
IsWaiting (refresh i closed now) = Unit
IsWaiting (drawn top lines) = Unit
IsWaiting _ = ⊥

-- The panel, what it is about and which one it is.
Same : Picker → Picker → Type 0
Same p q = (q.panel ≡ p.panel) × (q.panel_targets ≡ p.panel_targets) × (q.panel_kind ≡ p.panel_kind)

targets-found :
    (q : Picker) (ks : List String)
    → q.panel_targets ≡ ks
    → map close (targets q) ≡ map close (found_in q.inventory ks)
unfolding targets
targets-found q ks e = ap (λ l. map close (found_in q.inventory l)) e

abbrev opening : Picker → List Session → Answer
opening p all = (open_action_panel all p, none)

module _ (u : Unicode) where
  step-Same : (e : Event) (p : Picker) → IsWaiting e → Same p (step u e p)
  unfolding step set_inventory set_closed redrawn Same
  step-Same (refresh i closed now) p w = ground arith
  step-Same (drawn top lines) p w = (refl, refl, refl)
  step-Same _ p w = absurd w

  steps-Same : (es : List Event) (p : Picker) → All IsWaiting es → Same p (steps u es p)
  unfolding steps Same
  steps-Same [] p w = (refl, refl, refl)
  steps-Same (e ∷ es) p w =
      let (a, b, c) = step-Same e p w.0 in
      let (d, f, g) = steps-Same es (step u e p) w.1 in (d ∙ a, f ∙ b, g ∙ c)

  -- The first Enter opens the panel of the marked sessions.
  Opened : Session → List Session → Picker → Type 0
  Opened s ss q =
      (q.panel ≡ some (action_panel s ss))
      × (q.panel_targets ≡ map key_of (s ∷ ss))
      × (q.panel_kind ≡ actions)

  marks_enter-open :
      (ns : List ℕ) (now : ℕ) (p : Picker) (s : Session) (ss : List Session)
      → in_list p.view ≡ true
      → sessions_of p.inventory ns ≡ s ∷ ss
      → marks_enter u ns now p ≡ (open_action_panel (s ∷ ss) p, none)
  unfolding marks_enter
  marks_enter-open [] now p s ss a d = cc
  marks_enter-open (n ∷ ns) now p s ss a d = rw a (ap (opening p) d)

  enter-list :
      (p : Picker) (now : ℕ)
      → p.panel ≡ none
      → p.view ≡ View.list
      → input_note u p now ≡ ""
      → enter u now p ≡ marks_enter u (marks u p now) now p
  unfolding enter view_enter list_enter
  enter-list p now a b c = ground (arith, =~_refl "")

  enter-Opened :
      (p : Picker) (now : ℕ) (s : Session) (ss : List Session)
      → p.panel ≡ none
      → p.view ≡ View.list
      → input_note u p now ≡ ""
      → sessions_of p.inventory (marks u p now) ≡ s ∷ ss
      → Opened s ss (enter u now p).0
  unfolding open_action_panel Opened
  enter-Opened p now s ss a b c d =
      let listed : in_list p.view ≡ true = ap in_list b in
      let opened = enter-list p now a b c ∙ marks_enter-open (marks u p now) now p s ss listed d in
      subst (λ r. Opened s ss r.0) (sym opened) (refl, refl, refl)

  -- Close is the choice that the highlight is on.
  action_panel-current :
      (s : Session) (ss : List Session)
      → (current (action_panel s ss) ≡ some "close") × ((action_panel s ss).prompt ≡ false)
  unfolding current
  action_panel-current s [] = (refl, refl)
  action_panel-current s (t ∷ ts) = (refl, refl)

  panel_enter-close :
      (panel : Panel) (q : Picker)
      → current panel ≡ some "close"
      → panel.prompt ≡ false
      → q.panel_kind ≡ actions
      → panel_enter u panel q ≡ target_enter u actions "close" (targets q) q
  unfolding panel_enter item_enter
  panel_enter-close panel q a b c = ground arith

  target_enter-close :
      (ss : List Session) (q : Picker)
      → plans_of (target_enter u actions "close" ss q) ≡ map close ss
  unfolding target_enter action_enter
  target_enter-close [] q = refl
  target_enter-close (s ∷ ss) q = rw (=~_refl "close") refl

  enter-close :
      (q : Picker) (now : ℕ) (s : Session) (ss : List Session)
      → Opened s ss q
      → plans_of (enter u now q) ≡ map close (found_in q.inventory (map key_of (s ∷ ss)))
  unfolding enter Opened
  enter-close q now s ss (a, b, c) =
      let (choice, prompt) = action_panel-current s ss in
      let first : enter u now q ≡ panel_enter u (action_panel s ss) q = ground arith in
      ap plans_of (first ∙ panel_enter-close (action_panel s ss) q choice prompt c)
      ∙ target_enter-close (targets q) q
      ∙ targets-found q (map key_of (s ∷ ss)) b

-- If the picker shows the list without a panel, and numbers are typed that are all on the screen,
-- then Enter twice, with any refreshes and drawings in between, returns a close of exactly the
-- sessions that had those numbers at the first Enter and that are still listed at the second.
pub enter-closes_marked :
    (u : Unicode) (p : Picker) (now later : ℕ) (es : List Event) (s : Session) (ss : List Session)
    → p.panel ≡ none
    → p.view ≡ View.list
    → input_note u p now ≡ ""
    → sessions_of p.inventory (marks u p now) ≡ s ∷ ss
    → All IsWaiting es
    → plans_of (enter u later (steps u es (enter u now p).0))
      ≡ map close (found_in (steps u es (enter u now p).0).inventory (map key_of (s ∷ ss)))
unfolding Same Opened
enter-closes_marked u p now later es s ss a b c d w =
    let (x, y, z) = enter-Opened u p now s ss a b c d in
    let (k, l, m) = steps-Same u es (enter u now p).0 w in
    enter-close u (steps u es (enter u now p).0) later s ss (k ∙ x, l ∙ y, m ∙ z)
