-- ===== src/Moves/Justified.antt =====
-- lib/sessionkit_inventory/account_guard.py, `plan`: what a move is justified by, and the proof.
use session_kit.Base.{
  ℕ, ◌+◌, ◌*◌, ◌≤◌, ◌<◌, ◌≡◌, refl, sym, ap, subst, ◌∙◌, ◌⊎◌, inl, inr, String, Bool, true, false,
  List, none, some, arith, All, All-map, Any, find?, ◌=~◌, Option-cases, Any-some,
}
use session_kit.Json.{Value, get, is_true, is_text}
use session_kit.Common.Text.{Unicode}
use session_kit.Hops.Ledger.{Result, ok}
use session_kit.Moves.Usage.{
  Usage, absent, used, usage_state, usage_fraction, one_window, feed_is_implausible, choice_rows,
  is_fresh, has_run_dry, has_room, above_reserve, below_wall, alias_of,
}
use session_kit.Moves.Blocks.{session_block_reason}
use session_kit.Moves.Plan.{Candidate, switch, candidate_of, is_candidate, weekly_of, plan}
use session_kit.Moves.Sorted.{le, percent-near}
use session_kit.Moves.Safe.{plan_reached, plan_source-dry, plan_spent-Chosen}

-- More of the weekly window is left above the reserve, and the five-hour window is not used up.
pub record HasRoom (reserve : ℕ) (row : Value) : Type 0 where
  pub eligible : is_true (get "eligible" row) ≡ true
  pub weekly : ℕ
  pub known : usage_fraction (get "u7d" row) ≡ some weekly
  pub above : weekly + reserve * 10000 ≤ one_window
  pub five_hour :
      (usage_state (get "u5h" row) ≡ absent)
      ⊎ ((n : ℕ) × (usage_state (get "u5h" row) ≡ used n) × (n < one_window))

-- The first account is recommended if the second is, and where neither or both are, it has used at
-- most one percent of the weekly window more.
abbrev pub Preferred : Value → Value → Type 0
Preferred row other =
    (is_true (get "recommended" other) ≡ true → is_true (get "recommended" row) ≡ true)
    × (is_true (get "recommended" row) ≡ is_true (get "recommended" other)
        → weekly_of row ≤ weekly_of other + 10000)

-- The facts behind a move.
pub record IsJustified (u : Unicode) (reserve spent_line : ℕ) (hops : Result ℕ) (off : Bool)
    (choices : Value) (provider uuid : String) (session_row : Value)
    (source_alias source target : String) : Type 0 where
  pub allowed : off ≡ false
  pub fresh : is_fresh choices ≡ true
  pub plausible : feed_is_implausible (choice_rows choices) ≡ false
  pub never_moved : hops ≡ ok 0
  pub free : session_block_reason u session_row provider uuid source_alias ≡ none
  pub from : source ≡ source_alias
  pub dry :
      (row : Value) × (weekly : ℕ) × (find?
          (λ r. is_text source_alias (get "alias" r))
          (choice_rows choices)
        ≡ some row)
      × (usage_fraction (get "u7d" row) ≡ some weekly)
      × (spent_line * 10000 ≤ weekly)
  pub chosen : Value
  pub offered : Any (λ row. row ≡ chosen) (choice_rows choices)
  pub to : alias_of chosen ≡ target
  pub named : (target =~ "") ≡ false
  pub another : (target =~ source_alias) ≡ false
  pub room : HasRoom reserve chosen
  pub best :
      All
        (λ row. is_candidate reserve source_alias row ≡ true → Preferred chosen row)
        (choice_rows choices)

le-Preferred :
    (row other : Value) → le (candidate_of row) (candidate_of other) ≡ true → Preferred row other
le-Preferred row other h =
    let near = percent-near (weekly_of row) in
    let far = percent-near (weekly_of other) in (λ r. ground arith, λ same. ground arith)

-- The fraction of a row that has one.
above-known :
    (reserve : ℕ) (row : Value)
    → above_reserve reserve row ≡ true
    → (weekly : ℕ) × (usage_fraction (get "u7d" row) ≡ some weekly)
      × (weekly + reserve * 10000 ≤ one_window)
above-known reserve row h = elim (Option-cases (usage_fraction (get "u7d" row))) [
  | inl e ↦ absurd (ground arith)
  | inr (weekly, e) ↦ (weekly, e, ground arith)
]

dry-known :
    (line : ℕ) (row : Value)
    → has_run_dry line row ≡ true
    → (weekly : ℕ) × (usage_fraction (get "u7d" row) ≡ some weekly) × (line * 10000 ≤ weekly)
dry-known line row h = elim (Option-cases (usage_fraction (get "u7d" row))) [
  | inl e ↦ absurd (ground arith)
  | inr (weekly, e) ↦ (weekly, e, ground arith)
]

wall-known :
    (s : Usage) → below_wall s ≡ true → (s ≡ absent) ⊎ ((n : ℕ) × (s ≡ used n) × (n < one_window))
wall-known absent h = inl refl
wall-known (used n) h = inr (n, refl, ground arith)
wall-known s h = absurd cc

has_room-HasRoom : (reserve : ℕ) (row : Value) → has_room reserve row ≡ true → HasRoom reserve row
has_room-HasRoom reserve row h =
    let (weekly, known, above) = above-known reserve row (ground arith) in
    record {
      eligible = ground arith;
      weekly = weekly;
      known = known;
      above = above;
      five_hour = wall-known (usage_state (get "u5h" row)) (ground arith);
    }

is_candidate-is :
    (reserve : ℕ) (source_alias : String) (row : Value)
    → is_candidate reserve source_alias row ≡ true
    → ((alias_of row =~ "") ≡ false)
      × ((alias_of row =~ source_alias) ≡ false)
      × (has_room reserve row ≡ true)
unfolding is_candidate
is_candidate-is reserve source_alias row h = (ground arith, ground arith, ground arith)

-- A plan moves a conversation only if account changes are on, the feed is fresh and plausible, the
-- conversation was never moved, nothing blocks it, and the known weekly use of its account has reached
-- the spent line. It moves it to another, named account of the feed that is eligible, keeps the
-- reserve of its weekly window and has not used up its five-hour window. No such account is better:
-- none is recommended if this one is not, and, where both are or neither is, this one has used at most
-- one percent of the window more.
pub plan-IsJustified :
    (u : Unicode) (reserve spent_line : ℕ) (hops : Result ℕ) (off : Bool) (choices : Value)
    (provider uuid : String) (session_row : Value) (source_alias source target : String)
    (cs : List Candidate)
    → plan u reserve spent_line hops off choices provider uuid session_row source_alias
      ≡ switch source target cs
    → IsJustified u reserve spent_line hops off choices provider uuid session_row source_alias
        source target
plan-IsJustified u reserve spent_line hops off choices provider uuid session_row source_alias source
      target cs h =
    let (n, counted, allowed, fresh, plausible, reached) =
      plan_reached u reserve spent_line hops off choices provider uuid session_row source_alias
        source target cs h in
    let (dry, spent) =
      plan_source-dry u reserve spent_line provider uuid session_row source_alias
        (choice_rows choices) n source target cs reached in
    let (never, free, c) =
      plan_spent-Chosen u reserve spent_line provider uuid session_row source_alias
        (choice_rows choices) n source target cs spent in
    let (row, source_row, spent_row) = dry in
    let (weekly, known, used_up) = dry-known spent_line row spent_row in
    let (target_row, listed, (candidate, same)) = Any-some (choice_rows choices) c.offered in
    let (named, another, room) = is_candidate-is reserve source_alias target_row candidate in
    let to : alias_of target_row ≡ target = ap (λ x. x.alias) same ∙ c.to in
    record {
      allowed = allowed;
      fresh = fresh;
      plausible = plausible;
      never_moved = counted ∙ ap ok never;
      free = free;
      from = c.from;
      dry = (row, weekly, source_row, known, used_up);
      chosen = target_row;
      offered = listed;
      to = to;
      named = subst (λ x. (x =~ "") ≡ false) to named;
      another = subst (λ x. (x =~ source_alias) ≡ false) to another;
      room = has_room-HasRoom reserve target_row room;
      best =
          All-map _ (choice_rows choices)
            (λ other better eligible.
              le-Preferred target_row other
                (subst (λ x. le x (candidate_of other) ≡ true) (sym same) (better eligible)))
            c.best;
    }
