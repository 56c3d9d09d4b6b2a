-- ===== src/Moves/Usage.antt =====
-- lib/sessionkit_inventory/account_guard.py: `_usage_state`, `implausible_feed_reason`, and the two
-- questions about accounts, `target_still_eligible` and `spent_aliases`. A fraction of a window is
-- a whole number of millionths. What `account_choices` returns is an argument, and so is whether
-- the kill switch is set.
use Prim.Native.String.{compare}
use Prim.Native.Nat.{Ordering}
use session_kit.Base.{
  ℕ, ◌+◌, ◌*◌, String, Bool, true, false, ◌&&◌, ◌||◌, not, List, [], ◌∷◌, Option, none, some, leb,
  ltb, any, find?, keep_if, ◌=~◌, if◌then◌else◌,
}
use session_kit.Base.Int.{pos}
use session_kit.Json.{
  Value, null, int, float, str, millionths, get, is_mapping, is_true, is_text, elements,
}

pub data Usage : Type 0 where
  absent unreadable : Usage
  used : ℕ → Usage

abbrev pub one_window : ℕ
one_window = 1000000

-- At most `MAX_CREDIBLE_USAGE_FRACTION`.
abbrev credible : ℕ → Usage
credible n = if leb n (2 * one_window) then used n else unreadable

-- `_usage_state`
unfoldable pub usage_state : Value → Usage
usage_state null = absent
usage_state (int (pos n)) = credible (n * one_window)
usage_state (float (millionths (pos n))) = credible n
usage_state _ = unreadable

-- `_usage_fraction`
abbrev pub fraction_of : Usage → Option ℕ
fraction_of (used n) = some n
fraction_of _ = none

unfoldable pub usage_fraction : Value → Option ℕ
usage_fraction v = fraction_of (usage_state v)

abbrev pub is_unreadable : Usage → Bool
is_unreadable unreadable = true
is_unreadable _ = false

abbrev pub is_implausible : Value → Bool
is_implausible row =
    is_mapping row
    && (is_unreadable (usage_state (get "u5h" row)) || is_unreadable (usage_state (get "u7d" row)))

-- `implausible_feed_reason` is not empty.
unfoldable pub feed_is_implausible : List Value → Bool
feed_is_implausible = any is_implausible

abbrev pub choice_rows : Value → List Value
choice_rows choices = keep_if is_mapping (elements (get "choices" choices))

abbrev pub is_fresh : Value → Bool
is_fresh choices = is_true (get "roster_fresh" choices) && is_true (get "advice_fresh" choices)

-- `weekly <= (100 - reserve) / 100`
abbrev pub above_reserve : ℕ → Value → Bool
above_reserve reserve row = elim (usage_fraction (get "u7d" row)) [
  | none ↦ false
  | some weekly ↦ leb (weekly + reserve * 10000) one_window
]

-- The five-hour number is absent, or a fraction below one.
abbrev pub below_wall : Usage → Bool
below_wall absent = true
below_wall unreadable = false
below_wall (used n) = ltb n one_window

abbrev pub has_room : ℕ → Value → Bool
has_room reserve row =
    is_true (get "eligible" row)
    && above_reserve reserve row
    && below_wall (usage_state (get "u5h" row))

-- `target_still_eligible`, its verdict without the sentence.
unfoldable pub target_still_eligible : Bool → Value → ℕ → String → Bool
target_still_eligible off choices reserve alias =
    let rows = choice_rows choices in
    not off
    && is_fresh choices
    && not (feed_is_implausible rows)
    && (elim (find? (λ row. is_text alias (get "alias" row)) rows) [
      | none ↦ false
      | some row ↦ has_room reserve row
    ])

-- `str(row.get("alias") or "")`, for the text that the roster publishes.
abbrev pub alias_of : Value → String
alias_of row = text_or_empty (get "alias" row)
  where
    text_or_empty : Value → String
    text_or_empty (str s) = s
    text_or_empty _ = ""

-- `weekly * 100 >= line`
abbrev pub has_run_dry : ℕ → Value → Bool
has_run_dry line row = elim (usage_fraction (get "u7d" row)) [
  | none ↦ false
  | some weekly ↦ leb (line * 10000) weekly
]

abbrev pub insert_alias : String → List String → List String
insert_alias a [] = a ∷ []
insert_alias a (b ∷ bs) =
    let rest = insert_alias a bs in elim (compare a b) [ Ordering.gt ↦ b ∷ rest | _ ↦ a ∷ b ∷ bs ]

-- The aliases of the rows that have run dry, sorted.
unfoldable pub dry_aliases : ℕ → List Value → List String
dry_aliases line [] = []
dry_aliases line (row ∷ rows) =
    let rest = dry_aliases line rows in
    if not (alias_of row =~ "") && has_run_dry line row
    then insert_alias (alias_of row) rest
    else rest

-- `spent_aliases`: whether the answer is fresh, and the aliases.
unfoldable pub spent_aliases : Bool → Value → ℕ → Bool × List String
spent_aliases off choices line =
    let rows = choice_rows choices in
    if off || not (is_fresh choices) || feed_is_implausible rows
    then (false, [])
    else (true, dry_aliases line rows)
