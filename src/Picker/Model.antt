-- ===== src/Picker/Model.antt =====
-- lib/sessionkit_tui/model.py and frame.py: sessions, the snapshot, closed sessions and the panel.
-- What is only drawn is left out.
use Prim.Native.Char.{code}
use Prim.Native.String.{◌++◌}
use Prim.Native.Nat.{min}
use session_kit.Base.{
  ℕ, suc, zero, ◌+◌, ◌-◌, String, Bool, false, ◌&&◌, not, List, [], ◌∷◌, Option, none, some, length,
  keep_if, find?, ◌==◌, ◌=~◌, one_of, if◌then◌else◌,
}
use session_kit.Base.Int.{ℤ, pos, negsuc}
use session_kit.Base.Assoc.{Dict, lookup}
use session_kit.Json.{Value}
use session_kit.Common.Text.{Unicode, join}

pub record Session : Type 0 where
  pub key : String
  pub number : Option ℕ
  pub title : String
  pub provider : String
  pub account_alias : Option String
  pub origin : String
  pub availability : String
  pub agent_status : String
  pub quiet_seconds : Option ℕ
  pub cwd : String
  pub shpool_id : Option String
  pub raw : Value

abbrev pub is_machine : Session → Bool
is_machine s = s.origin =~ "machine"

abbrev pub is_attached : Unicode → Session → Bool
is_attached u s = u.casefold s.availability =~ "attached"

-- `cwd.rstrip("/")`
abbrev without_slashes : String → String
without_slashes String.[] = ""
without_slashes (String.◌∷◌ c s) =
    let rest = without_slashes s in if code c == b'/' && rest =~ "" then "" else String.◌∷◌ c rest

-- `os.path.basename`, with the name under way.
abbrev base_name : String → String → String
base_name name String.[] = name
base_name name (String.◌∷◌ c s) =
    if code c == b'/' then base_name "" s else base_name (name ++ String.◌∷◌ c "") s

-- `part for part in parts if part`
abbrev not_empty : String → Bool
not_empty p = not (p =~ "")

abbrev or_empty : Option String → String
or_empty none = ""
or_empty (some s) = s

abbrev label_or : String → String → Dict String → String
label_or other key labels = elim (lookup key labels) [ none ↦ other | some l ↦ l ]

abbrev provider_labels : Dict String
provider_labels = ("claude", "CLD") ∷ ("codex", "CDX") ∷ ("shell", "SHL") ∷ []

abbrev provider_names : Dict String
provider_names = ("claude", "Claude") ∷ ("codex", "Codex") ∷ ("shell", "shell") ∷ []

-- What the filter searches.
unfoldable pub haystack : Unicode → Session → String
haystack u s = u.casefold (
    join (
      keep_if not_empty (
        s.title
        ∷ label_or "UNK" (u.casefold s.provider) provider_labels
        ∷ label_or s.provider (u.casefold s.provider) provider_names
        ∷ or_empty s.account_alias
        ∷ base_name "" (without_slashes s.cwd)
        ∷ s.cwd
        ∷ s.agent_status
        ∷ [])))

-- A conversation that was closed on purpose.
pub record ClosedSession : Type 0 where
  pub key : String
  pub title : String
  pub provider : String
  pub uuid : String
  pub cwd : String
  pub account_alias : Option String
  pub recorded_restorable : Option Bool

unfoldable pub restorable : Unicode → ClosedSession → Bool
restorable u c = elim c.recorded_restorable [
  | some b ↦ b
  | none ↦ not (c.uuid =~ "") && one_of (u.casefold c.provider) "claude" "codex"
]

unfoldable pub closed_haystack : Unicode → ClosedSession → String
closed_haystack u c = u.casefold (
    join (
      keep_if not_empty (
        c.title
        ∷ label_or "shell" (u.casefold c.provider) provider_labels
        ∷ or_empty c.account_alias
        ∷ base_name "" (without_slashes c.cwd)
        ∷ [])))

pub record Inventory : Type 0 where
  pub sessions : List Session
  pub source : String
  pub stale : Bool

unfoldable pub live : Inventory → Bool
live i = i.source =~ "live" && not i.stale

abbrev pub has_key : String → Session → Bool
has_key k s = s.key =~ k

abbrev has_number : ℕ → Session → Bool
has_number n s = elim s.number [ none ↦ false | some m ↦ m == n ]

unfoldable pub by_key : Inventory → String → Option Session
by_key i k = find? (has_key k) i.sessions

unfoldable pub by_number : Inventory → ℕ → Option Session
by_number i n = find? (has_number n) i.sessions

-- `max(0, min(last, index + delta))`
abbrev pub clamp : ℕ → ℕ → ℤ → ℕ
clamp last index (pos d) = min last (index + d)
clamp last index (negsuc d) = min last (index - suc d)

-- The choices of a panel, by their keys; a prompt, where it asks for a text.
pub record Panel : Type 0 where
  pub title : String
  pub items : List String
  pub index : ℕ
  pub prompt : Bool
  pub entry : String

unfoldable pub moved : Panel → ℤ → Panel
moved p delta = elim p.items [
  | [] ↦ p
  | x ∷ xs ↦ record p { index = clamp (length xs) p.index delta }
]

abbrev pub get_elem? {ℓ} : {A : Type ℓ} → List A → ℕ → Option A
get_elem? [] n = none
get_elem? (x ∷ xs) zero = some x
get_elem? (x ∷ xs) (suc n) = get_elem? xs n

unfoldable pub current : Panel → Option String
current p = get_elem? p.items p.index
