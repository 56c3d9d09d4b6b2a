-- ===== src/Moves/Plan.antt =====
-- lib/sessionkit_inventory/account_guard.py: `plan`. The hop count is what `hop_count` gives, the
-- alias on record (`binding_for`) is empty where there is none, and the sentences are left out.
use Prim.Native.String.{compare}
use Prim.Native.Nat.{Ordering}
use session_kit.Base.{
  ℕ, suc, ◌*◌, ◌/◌, ◌%◌, String, Bool, true, false, ◌&&◌, ◌||◌, not, List, [], ◌∷◌, none, some, leb,
  ltb, ◌==◌, find?, ◌=~◌, if◌then◌else◌,
}
use session_kit.Json.{Value, get, is_true, is_text}
use session_kit.Common.Text.{Unicode}
use session_kit.Hops.Ledger.{Result, ok, err, max_automatic_hops}
use session_kit.Moves.Usage.{
  usage_fraction, feed_is_implausible, choice_rows, is_fresh, has_room, alias_of,
}
use session_kit.Moves.Blocks.{Block, session_block_reason}

pub data Hold : Type 0 where
  ledger_unreadable kill_switch feed_stale feed_implausible source_unknown usage_unknown
        source_has_quota hop_limit no_eligible_account :
      Hold
  session_busy : Block → Hold

pub record Candidate : Type 0 where
  pub alias : String
  pub weekly_used_percent : ℕ
  pub recommended : Bool

pub data Verdict : Type 0 where
  hold : Hold → Verdict
  switch : (source target : String) → List Candidate → Verdict

-- `round(weekly * 100)`: to the nearest whole, and from a half to the even one.
unfoldable pub percent : ℕ → ℕ
percent weekly =
    let whole = weekly / 10000 in
    let rest = weekly % 10000 in
    if ltb 5000 rest || ((rest == 5000) && (whole % 2 == 1)) then suc whole else whole

abbrev pub weekly_of : Value → ℕ
weekly_of row = elim (usage_fraction (get "u7d" row)) [ none ↦ 0 | some weekly ↦ weekly ]

abbrev pub candidate_of : Value → Candidate
candidate_of row = record {
  alias = alias_of row;
  weekly_used_percent = percent (weekly_of row);
  recommended = is_true (get "recommended" row);
}

-- A row that the conversation may be moved to.
unfoldable pub is_candidate : ℕ → String → Value → Bool
is_candidate reserve source_alias row =
    not (alias_of row =~ "") && not (alias_of row =~ source_alias) && has_room reserve row

unfoldable pub candidates_of : ℕ → String → List Value → List Candidate
candidates_of reserve source_alias [] = []
candidates_of reserve source_alias (row ∷ rows) =
    let rest = candidates_of reserve source_alias rows in
    if is_candidate reserve source_alias row then candidate_of row ∷ rest else rest

-- `(not recommended, weekly_used_percent, alias)` of the first is at most that of the second.
abbrev by_alias : Candidate → Candidate → Bool
by_alias a b = elim (compare a.alias b.alias) [ Ordering.gt ↦ false | _ ↦ true ]

abbrev by_percent : Candidate → Candidate → Bool
by_percent a b =
    if ltb a.weekly_used_percent b.weekly_used_percent
    then true
    else if ltb b.weekly_used_percent a.weekly_used_percent
    then false
    else by_alias a b

unfoldable pub no_worse : Candidate → Candidate → Bool
no_worse a b =
    if a.recommended && not b.recommended
    then true
    else if b.recommended && not a.recommended
    then false
    else by_percent a b

abbrev pub insert_candidate : Candidate → List Candidate → List Candidate
insert_candidate c [] = c ∷ []
insert_candidate c (d ∷ ds) =
    let rest = insert_candidate c ds in if no_worse c d then c ∷ d ∷ ds else d ∷ rest

-- `candidates.sort(key=…)`
unfoldable pub sorted : List Candidate → List Candidate
sorted [] = []
sorted (c ∷ cs) = insert_candidate c (sorted cs)

abbrev pub verdict_of : String → List Candidate → Verdict
verdict_of source [] = hold no_eligible_account
verdict_of source (c ∷ cs) = switch source c.alias (c ∷ cs)

module _ (u : Unicode) (reserve spent_line : ℕ) where
  -- Once the source account is known to be spent.
  unfoldable pub plan_spent : String → String → Value → String → List Value → ℕ → Verdict
  plan_spent provider uuid session_row source_alias rows hops =
      if leb max_automatic_hops hops
      then hold hop_limit
      else elim (session_block_reason u session_row provider uuid source_alias) [
        | some b ↦ hold (session_busy b)
        | none ↦ verdict_of source_alias (sorted (candidates_of reserve source_alias rows))
      ]

  unfoldable pub plan_source : String → String → Value → String → List Value → ℕ → Verdict
  plan_source provider uuid session_row source_alias rows hops =
      if source_alias =~ ""
      then hold source_unknown
      else elim (find? (λ row. is_text source_alias (get "alias" row)) rows) [
        | none ↦ hold usage_unknown
        | some row ↦ elim (usage_fraction (get "u7d" row)) [
          | none ↦ hold usage_unknown
          | some weekly ↦
              if ltb weekly (spent_line * 10000)
              then hold source_has_quota
              else plan_spent provider uuid session_row source_alias rows hops
        ]
      ]

  unfoldable pub plan : Result ℕ → Bool → Value → String → String → Value → String → Verdict
  plan hops off choices provider uuid session_row source_alias = elim hops [
    | err e ↦ hold ledger_unreadable
    | ok n ↦
        if off
        then hold kill_switch
        else if not (is_fresh choices)
        then hold feed_stale
        else if feed_is_implausible (choice_rows choices)
        then hold feed_implausible
        else plan_source provider uuid session_row source_alias (choice_rows choices) n
  ]
