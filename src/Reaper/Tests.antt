-- ===== src/Reaper/Tests.antt =====
-- reaper.py: two passes over one terminal, and the theorem at them.
use session_kit.Base.{ℕ, ◌≡◌, refl, String, true, false, [], ◌∷◌, some, All, string_dec}
use session_kit.Base.Int.{pos}
use session_kit.Json.{Value, null, bool, int, str, list, object, nil, cons, end, field, get, equal}
use session_kit.Common.{valid_uuid, is_provider}
use session_kit.Common.Text.{ascii, is_generated_id}
use session_kit.Reaper.Candidates.{Exited, proof_json, is_safe, safe_candidate, phantom_candidate}
use session_kit.Reaper.Plan.{
  provider_exited, Pass, rows_of, index_rows, inventory_by_id, previous_rows, is_known,
  first_verified, observation, document, proof_of, candidates_of, plan_rows, work_of,
  plan_auto_close, stored_after,
}
use session_kit.Reaper.Closes.{IsDue, plan_auto_close-IsDue}

abbrev raw : String
raw = "s20260802-101500-4242"

abbrev uuid : String
uuid = "0c5a8f12-1b2c-4d5e-8f90-abcdefabcdef"

abbrev row : Value
row = object (
    field "name" (str raw) (
      field "status" (str "disconnected") (
        field "started_at_unix_ms" (int (pos 9000))
          (field "last_disconnected_at_unix_ms" (int (pos 9100)) end))))

abbrev item : Value
item = object (
    field "shpool_id_raw" (str raw) (
      field "started_at_unix_ms" (int (pos 9000)) (
        field "shpool_status" (str "disconnected") (
          field "availability" (str "ready") (
            field "provider" (str "shell") (
              field "exited_provider" (str "claude") (
                field "agent_status" (str "provider exited") (
                  field "needs_you" (bool false) (
                    field "provider_exit_input_tracking" (bool true) (
                      field "user_input_after_provider_exit" (bool false) (
                        field "provider_exit_keep" (bool false) (
                          field "provider_exited_at_monotonic_ns" (int (pos 500)) (
                            field "mutation_allowed" (bool true) (
                              field "shpool_shell"
                                (object (
                                  field "pid" (int (pos 4242))
                                    (field "process_start_ticks" (int (pos 7)) end)))
                                (field "exited_identity"
                                  (object (
                                    field "confidence" (str "historical-exact")
                                      (field "uuid" (str uuid) end)))
                                  (field "recovery"
                                    (object (
                                      field "available" (bool true) (
                                        field "provider" (str "claude")
                                          (field "uuid" (str uuid) end))))
                                    end))))))))))))))))

abbrev inventory : Value
inventory = object (
    field "source" (str "live") (
      field "stale" (bool false)
        (field "warnings" (list nil) (field "sessions" (list (cons item nil)) end))))

abbrev facts : Value
facts = object (
    field raw
      (object (
        field "shell_pid" (int (pos 4242))
          (field "shell_start_ticks" (int (pos 7)) (field "empty" (bool true) end))))
      end)

abbrev pass_at : ℕ → Pass
pass_at now = record {
  payload = object (field "sessions" (list (cons row nil)) end);
  inventory = inventory;
  facts = facts;
  now = now;
}

-- A digest for tests.
abbrev digest : Value → String
digest _ = "digest"

abbrev proof : Exited
proof = record {
  session_id = raw;
  started = int (pos 9000);
  disconnected = int (pos 9100);
  shell_pid = int (pos 4242);
  shell_ticks = int (pos 7);
  provider = "claude";
  uuid = uuid;
  exit_ns = 500;
}

abbrev observed : ℕ → Value
observed now = document now (field raw (observation "digest" 1000) end)

-- The first pass only observes; the second, a minimum age later, proposes the close.
first_pass :
    plan_auto_close ascii digest 100 (pass_at 1000) null
    ≡ some (record { observations = observed 1000; candidates = [] })
unfolding string_dec get equal valid_uuid is_provider is_generated_id proof_json is_safe
    safe_candidate phantom_candidate rows_of index_rows inventory_by_id previous_rows is_known
    first_verified observation document proof_of candidates_of plan_rows work_of plan_auto_close
    stored_after
first_pass = refl

second_pass :
    plan_auto_close ascii digest 100
      (pass_at 1100)
      (stored_after ascii digest 100 (pass_at 1000 ∷ []))
    ≡ some (record {
      observations = observed 1100;
      candidates = provider_exited proof "digest" 1000 ∷ [];
    })
unfolding string_dec get equal valid_uuid is_provider is_generated_id proof_json is_safe
    safe_candidate phantom_candidate rows_of index_rows inventory_by_id previous_rows is_known
    first_verified observation document proof_of candidates_of plan_rows work_of plan_auto_close
    stored_after
second_pass = refl

plan_auto_close-IsDue_example :
    All
      (IsDue ascii digest 100 (pass_at 1100) (pass_at 1000 ∷ []))
      (provider_exited proof "digest" 1000 ∷ [])
plan_auto_close-IsDue_example =
    plan_auto_close-IsDue ascii digest 100 (pass_at 1000 ∷ []) (pass_at 1100)
      (record {
        observations = observed 1100;
        candidates = provider_exited proof "digest" 1000 ∷ [];
      })
      second_pass
