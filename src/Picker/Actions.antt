-- ===== src/Picker/Actions.antt =====
-- lib/sessionkit_tui/actions.py: the command that each choice runs, and voice.py's sentences on it.
use Prim.Native.String.{◌++◌}
use session_kit.Base.{
  String, Bool, true, false, List, [], ◌∷◌, Option, none, some, ◌=~◌, if◌then◌else◌,
}
use session_kit.Common.Text.{Unicode}
use session_kit.Picker.Model.{Session, ClosedSession, is_attached}
use session_kit.Picker.Print.{show}

pub record Plan : Type 0 where
  pub argv : List String
  pub success : String
  pub failure : String
  pub needs_terminal : Bool
  pub proof_for : Option String
  pub confirm_id : Option String
  pub quote_stderr : Bool

abbrev pub nothing_changed : String
nothing_changed = "Nothing changed."

abbrev pub action_failed : String → String
action_failed name = name ++ " was refused. Nothing changed."

abbrev proof : String
proof = "{proof}"

-- The number, or the ID where there is none.
abbrev selector : Session → String
selector s = elim s.number [
  | some n ↦ show n
  | none ↦ elim s.shpool_id [ none ↦ "" | some id ↦ id ]
]

-- A command that runs with a proof of the exact session.
abbrev proved : Session → List String → String → String → Bool → Plan
proved s argv success failure terminal = record {
  argv = argv;
  success = success;
  failure = action_failed failure;
  needs_terminal = terminal;
  proof_for = some s.key;
  confirm_id = s.shpool_id;
  quote_stderr = false;
}

-- A command without one.
abbrev plain : List String → String → String → Bool → Bool → Plan
plain argv success failure terminal quote = record {
  argv = argv;
  success = success;
  failure = action_failed failure;
  needs_terminal = terminal;
  proof_for = none;
  confirm_id = none;
  quote_stderr = quote;
}

unfoldable pub open_session : Unicode → Session → Plan
open_session u s =
    proved s ("sp" ∷ (if is_attached u s then "picker-takeover" else "picker-open") ∷ proof ∷ [])
      ("Opened " ++ (s.title ++ ".")) "Open" true

unfoldable pub history : Session → Plan
history s = proved s ("sp" ∷ "picker-history" ∷ proof ∷ []) "" "History" true

unfoldable pub close : Session → Plan
close s =
    proved s ("sp" ∷ "picker-close" ∷ proof ∷ []) ("Closed " ++ (s.title ++ ".")) "Close" false

unfoldable pub rename : Session → String → Plan
rename s title =
    proved s ("sp" ∷ "picker-name" ∷ proof ∷ title ∷ []) ("Renamed " ++ (title ++ ".")) "Rename"
      false

unfoldable pub change_account : Session → String → Plan
change_account s alias =
    proved s ("sp" ∷ "picker-account-switch" ∷ proof ∷ alias ∷ [])
      (s.title ++ (" now uses account " ++ (alias ++ "."))) "Change account" true

unfoldable pub change_model : Session → String → Plan
change_model s model =
    plain ("sp" ∷ "change-model" ∷ selector s ∷ model ∷ [])
      (s.title ++ (" now runs " ++ (model ++ "."))) "Change model" false true

unfoldable pub color : Session → String → Plan
color s name =
    plain ("sp" ∷ "color" ∷ selector s ∷ name ∷ []) (s.title ++ (" is now " ++ (name ++ ".")))
      "Color" false false

-- `item.account_alias`, where it is a text that is not empty.
abbrev alias_words : Option String → List String
alias_words none = []
alias_words (some a) = if a =~ "" then [] else a ∷ []

unfoldable pub restore : ClosedSession → Plan
restore c =
    plain
      ("sp"
        ∷ "restore-exact"
        ∷ c.provider
        ∷ c.uuid
        ∷ (if c.cwd =~ "" then "." else c.cwd)
        ∷ alias_words c.account_alias)
      ("Restored " ++ (c.title ++ ".")) "Restore" true false

unfoldable pub new_session : String → String → Plan
new_session provider project =
    plain ("sp" ∷ "new" ∷ provider ∷ (if project =~ "" then [] else project ∷ [])) "" "New session"
      true false

unfoldable pub colors_for : Unicode → String → List String
colors_for u provider =
    if u.casefold provider =~ "codex"
    then "lime" ∷ "magenta" ∷ "silver" ∷ "sand" ∷ "sky" ∷ "sea" ∷ []
    else "red" ∷ "blue" ∷ "green" ∷ "yellow" ∷ "purple" ∷ "orange" ∷ "pink" ∷ "cyan" ∷ []
