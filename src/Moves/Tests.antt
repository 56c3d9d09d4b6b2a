-- ===== src/Moves/Tests.antt =====
-- account_guard.py: a plan on a concrete feed, and the theorems at it.
use session_kit.Base.{ℕ, ◌≡◌, ◌≢◌, refl, String, Bool, true, false, List, [], ◌∷◌, string_dec}
use session_kit.Base.Int.{pos}
use session_kit.Json.{
  Value, null, bool, int, float, millionths, str, list, object, nil, cons, end, field, get,
}
use session_kit.Common.{valid_uuid, is_provider}
use session_kit.Common.Text.{ascii, clean_text}
use session_kit.Hops.Ledger.{
  Stored, missing, document, ok, thread_key, load_hop_ledger, prune_empty_threads,
}
use session_kit.Hops.Operations.{on_ledger, hop_count, begin_in, begin_hop, reservation, reserve}
use session_kit.Moves.Usage.{
  usage_state, usage_fraction, feed_is_implausible, target_still_eligible, spent_aliases,
  dry_aliases,
}
use session_kit.Moves.Blocks.{is_movable, account_block, activity_block, session_block_reason}
use session_kit.Moves.Plan.{
  Candidate, switch, percent, is_candidate, candidates_of, no_worse, sorted, plan_spent,
  plan_source, plan,
}
use session_kit.Moves.Justified.{IsJustified, plan-IsJustified}
use session_kit.Moves.Once.{begin_hop-plan}

abbrev conversation : String
conversation = "0c5a8f12-1b2c-4d5e-8f90-abcdefabcdef"

abbrev account : String → ℕ → Bool → Value
account alias weekly recommended = object (
    field "alias" (str alias) (
      field "eligible" (bool true) (
        field "recommended" (bool recommended)
          (field "u7d" (float (millionths (pos weekly))) (field "u5h" null end)))))

-- The first account has run dry; the third is recommended, the second less used.
abbrev feed : Value
feed = object (
    field "roster_fresh" (bool true) (
      field "advice_fresh" (bool true) (
        field "choices"
          (list (
            cons (account "0" 1000000 false)
              (cons (account "2" 100000 false) (cons (account "3" 400000 true) nil))))
          end)))

abbrev session : Value
session = object (
    field "provider" (str "claude") (
      field "identity" (object (field "uuid" (str conversation) end)) (
        field "mutation_allowed" (bool true) (
          field "account_alias" (str "0") (
            field "agent_status" (str "idle")
              (field "recent_output_age_seconds" (int (pos 60)) end))))))

abbrev candidates : List Candidate
candidates =
    record { alias = "3"; weekly_used_percent = 40; recommended = true }
    ∷ record { alias = "2"; weekly_used_percent = 10; recommended = false }
    ∷ []

moved :
    plan ascii 25 100 (ok 0) false feed "claude" conversation session "0"
    ≡ switch "0" "3" candidates
unfolding plan plan_source plan_spent session_block_reason account_block activity_block is_movable
    is_candidate candidates_of no_worse sorted percent usage_state usage_fraction
    feed_is_implausible clean_text valid_uuid get string_dec
moved = refl

still_eligible :
    (target_still_eligible false feed 25 "3" ≡ true)
    × (spent_aliases false feed 100 ≡ (true, "0" ∷ []))
unfolding target_still_eligible spent_aliases dry_aliases usage_state usage_fraction
    feed_is_implausible get string_dec
still_eligible = (refl, refl)

plan-IsJustified_example :
    IsJustified ascii 25 100 (ok 0) false feed "claude" conversation session "0" "0" "3"
plan-IsJustified_example =
    plan-IsJustified ascii 25 100 (ok 0) false feed "claude" conversation session "0" "0" "3"
      candidates moved

abbrev begun : Stored
begun = document (
    (
      "claude:0c5a8f12-1b2c-4d5e-8f90-abcdefabcdef",
      record {
        count = 1;
        hops =
            record {
              at_unix = 100;
              source = "0";
              target = "3";
              reason = "limit";
              state = "pending";
              token = "t1";
            }
            ∷ [];
        notices = [];
      },
    )
    ∷ [])

begun_now :
    begin_hop ascii "claude" conversation "0" "3" "limit" 100 "t1" missing ≡ (ok "t1", begun)
unfolding on_ledger thread_key load_hop_ledger prune_empty_threads begin_hop begin_in reservation
    reserve clean_text valid_uuid is_provider string_dec
begun_now = refl

begin_hop-plan_example :
    plan ascii 25 100
      (hop_count ascii "claude" conversation begun).0
      false
      feed
      "claude"
      conversation
      session
      "0"
    ≢ switch "0" "3" candidates
begin_hop-plan_example =
    begin_hop-plan ascii "claude" conversation "0" "3" "limit" "t1" 100 missing begun 25 100 false
      feed session "0" "0" "3" candidates begun_now
