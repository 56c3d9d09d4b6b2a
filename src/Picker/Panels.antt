-- ===== src/Picker/Panels.antt =====
-- lib/sessionkit_tui/state.py: the panels, what they open and what Enter in one returns.
use Prim.Native.String.{◌++◌}
use session_kit.Base.{
  ℕ, String, Bool, true, false, List, [], ◌∷◌, Option, none, some, length, find?, map, ◌==◌, ◌=~◌,
  if◌then◌else◌,
}
use session_kit.Common.Text.{Unicode}
use session_kit.Picker.Actions.{
  Plan, nothing_changed, action_failed, open_session, history, close, rename, change_account,
  change_model, color, restore, new_session, colors_for,
}
use session_kit.Picker.Model.{Session, ClosedSession, Panel, restorable, current}
use session_kit.Picker.Print.{show}
use session_kit.Picker.State.{
  PanelKind, no_kind, actions, provider, project, account, model, Picker, targets,
}
use session_kit.Selection.Grammar.{strip_left, strip_right}

-- One Enter, one sentence.
pub record Batch : Type 0 where
  pub plans : List Plan
  pub success : String
  pub failure : String
  pub seen_key : String

-- The new state, and the commands to run.
abbrev pub Answer : Type 0
Answer = Picker × Option Batch

-- `self._run(plan, seen_key)`
abbrev pub run : Picker → Plan → String → Answer
run p plan seen = (
  p,
  some (record {
    plans = plan ∷ [];
    success = plan.success;
    failure = plan.failure;
    seen_key = seen;
  }),
)

abbrev pub says : String → Picker → Answer
says text p = (record p { status = text }, none)

abbrev pub shut : Picker → Picker
shut p = record p { panel = none; panel_kind = no_kind }

abbrev cleared : Picker → Picker
cleared p = record p { panel = none; panel_kind = no_kind; input_text = "" }

abbrev panel_with : String → List String → ℕ → Panel
panel_with title items index = record {
  title = title;
  items = items;
  index = index;
  prompt = false;
  entry = "";
}

-- `voice.plural`
abbrev plural : ℕ → String → String
plural n word = show n ++ (" " ++ (if n == 1 then word else word ++ "s"))

abbrev pub key_of : Session → String
key_of s = s.key

-- The choices for one session, with the highlight on Close.
abbrev pub action_panel : Session → List Session → Panel
action_panel s [] =
    panel_with s.title
      ("open" ∷ "history" ∷ "close" ∷ "account" ∷ "model" ∷ "rename" ∷ "color" ∷ []) 2
action_panel s (t ∷ ts) =
    panel_with (plural (length (s ∷ t ∷ ts)) "session" ++ " marked") ("close" ∷ []) 0

unfoldable pub open_action_panel : List Session → Picker → Picker
open_action_panel [] p = record p { status = nothing_changed }
open_action_panel (s ∷ ss) p = record p {
  panel_targets = map key_of (s ∷ ss);
  panel_kind = actions;
  panel = some (action_panel s ss);
  status = "";
}

unfoldable pub open_closed_panel : Unicode → ClosedSession → Picker → Picker
open_closed_panel u c p = record p {
  panel_targets = c.key ∷ [];
  panel_kind = PanelKind.closed;
  panel = some (
      panel_with c.title (if restorable u c then "restore" ∷ "history" ∷ [] else "history" ∷ []) 0);
  status = "";
}

unfoldable pub open_provider_panel : Picker → Picker
open_provider_panel p = record p {
  panel_kind = provider;
  panel = some (panel_with "New session" ("claude" ∷ "codex" ∷ "shell" ∷ []) 0);
  status = "";
}

abbrev pub here : String
here = " here"

unfoldable pub open_project_panel : Picker → Picker
open_project_panel p = record p {
  panel_kind = project;
  panel = some (panel_with "Project" (here ∷ p.projects) 0);
  status = "";
}

unfoldable pub new_session_batch : Picker → Answer
new_session_batch p =
    run
      (record p { panel = none; panel_kind = no_kind; pending_provider = ""; pending_project = "" })
      (new_session p.pending_provider p.pending_project) ""

unfoldable pub provider_enter : String → Picker → Answer
provider_enter key p =
    let q = record p { pending_provider = key } in
    if q.pending_project =~ "" then (open_project_panel q, none) else new_session_batch q

unfoldable pub project_enter : String → Picker → Answer
project_enter key p =
    let q = record p { pending_project = if key =~ here then "" else key } in
    if q.pending_provider =~ "" then (open_provider_panel q, none) else new_session_batch q

abbrev pub has_closed_key : String → ClosedSession → Bool
has_closed_key k c = c.key =~ k

abbrev pub first_or_empty : List String → String
first_or_empty [] = ""
first_or_empty (k ∷ ks) = k

unfoldable pub closed_enter : String → Picker → Answer
closed_enter key p = elim (find? (has_closed_key (first_or_empty p.panel_targets)) p.closed) [
  | none ↦ says nothing_changed (shut p)
  | some c ↦
      if key =~ "restore"
      then (
        shut p,
        some (record {
          plans = restore c ∷ [];
          success = "Restored " ++ (c.title ++ ".");
          failure = action_failed "Restore";
          seen_key = "";
        }),
      )
      else says nothing_changed (shut p)
]

abbrev pub choices : String → List String → PanelKind → String → Picker → Answer
choices title [] kind empty p = says empty (shut p)
choices title (x ∷ xs) kind empty p =
    (record p { panel_kind = kind; panel = some (panel_with title (x ∷ xs) 0) }, none)

abbrev closed_sentence : Session → List Session → String
closed_sentence s [] = "Closed " ++ (s.title ++ ".")
closed_sentence s (t ∷ ts) = "Closed " ++ (plural (length (s ∷ t ∷ ts)) "session" ++ ".")

-- A choice of the action panel, for the sessions that it is about.
unfoldable pub action_enter : Unicode → String → Session → List Session → Picker → Answer
action_enter u key s ss p =
    if key =~ "close"
    then (
      cleared p,
      some (record {
        plans = map close (s ∷ ss);
        success = closed_sentence s ss;
        failure = action_failed "Close";
        seen_key = "";
      }),
    )
    else if key =~ "open"
    then run (cleared p) (open_session u s) s.key
    else if key =~ "history"
    then run (cleared p) (history s) ""
    else if key =~ "rename"
    then (
      record p {
        panel = some (record { title = s.title; items = []; index = 0; prompt = true; entry = "" });
      },
      none,
    )
    else if key =~ "account"
    then choices "Change to account" (p.accounts s.provider) account "Accounts: none." p
    else if key =~ "model"
    then choices "Change model" (p.models s.provider) model "Models: none." p
    else if key =~ "color"
    then choices "Color" (colors_for u s.provider) PanelKind.color "" p
    else says nothing_changed (record p { panel = none })

-- A choice of a panel that is about sessions.
unfoldable pub target_enter : Unicode → PanelKind → String → List Session → Picker → Answer
target_enter u kind key [] p = says nothing_changed (record p { panel = none })
target_enter u kind key (s ∷ ss) p = elim kind [
  | actions ↦ action_enter u key s ss p
  | account ↦ run (cleared p) (change_account s key) ""
  | model ↦ run (cleared p) (change_model s key) ""
  | PanelKind.color ↦ run (cleared p) (color s key) ""
  | _ ↦ says nothing_changed (record p { panel = none })
]

unfoldable pub item_enter : Unicode → PanelKind → String → Picker → Answer
item_enter u kind key p = elim kind [
  | provider ↦ provider_enter key p
  | project ↦ project_enter key p
  | PanelKind.closed ↦ closed_enter key p
  | other ↦ target_enter u other key (targets p) p
]

unfoldable pub rename_enter : String → List Session → Picker → Answer
rename_enter title [] p = says nothing_changed (shut p)
rename_enter title (s ∷ ss) p =
    if title =~ "" then says nothing_changed (shut p) else run (cleared p) (rename s title) ""

unfoldable pub panel_enter : Unicode → Panel → Picker → Answer
panel_enter u panel p =
    if panel.prompt
    then rename_enter (strip_right u (strip_left u panel.entry)) (targets p) p
    else elim (current panel) [
      | none ↦ says nothing_changed p
      | some key ↦ item_enter u p.panel_kind key p
    ]
