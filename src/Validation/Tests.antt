-- ===== src/Validation/Tests.antt =====
-- validation.py: an inventory of two sessions and a provider outside shpool, and the theorems at
-- it.
use session_kit.Base.{ℕ, ◌≡◌, refl, String, true, false, [], ◌++◌, string_dec}
use session_kit.Base.Int.{pos}
use session_kit.Json.{
  Value, null, bool, int, str, list, object, nil, cons, end, field, get, equal, elements,
}
use session_kit.Common.{valid_uuid, is_provider}
use session_kit.Common.Text.{
  ascii, clean_text, shpool_id_mutation_policy, is_generated_id, is_legacy_id,
}
use session_kit.Terminal.Quarantine.{missing_shell_generation_is_quarantinable}
use session_kit.Validation.Guard.{
  generation_is_quarantined, follows_policy, is_proven_row, add_number, is_unknown_identity,
  add_conversation, add_provider, guard_proven, guard_row, outside_row, is_live,
  guard_live_inventory, same_conversation,
}
use session_kit.Validation.Strict.{strict_row, strict_live_inventory}
use session_kit.Validation.Adds.{AllNew, keys}
use session_kit.Validation.Unique.{IsUnambiguous, guard_live_inventory-IsUnambiguous}
use session_kit.Validation.Counted.{exact_conversation}
use session_kit.Validation.Exact.{strict_live_inventory-AllNew}

abbrev process : ℕ → Value
process pid = object (field "pid" (int (pos pid)) (field "process_start_ticks" (int (pos 7)) end))

abbrev exact : ℕ → Value → Value
exact pid uuid = object (
    field "confidence" (str "exact") (
      field "uuid" uuid
        (field "pid" (int (pos pid)) (field "process_start_ticks" (int (pos 7)) end))))

abbrev session : ℕ → String → Value → Value → Value
session row raw provider identity = object (
    field "row" (int (pos row)) (
      field "shpool_id_raw" (str raw) (
        field "shpool_id" (str raw) (
          field "mutation_allowed" (bool true) (
            field "mutation_rejection_reason" null (
              field "terminal_number" (int (pos row)) (
                field "provider" provider
                  (field "identity" identity (field "shpool_shell" (process 4242) end)))))))))

abbrev inventory : Value → Value
inventory outside_uuid = object (
    field "schema_version" (int (pos 1)) (
      field "source" (str "live") (
        field "stale" (bool false) (
          field "warnings" (list nil) (
            field "daemon_generation" (process 100) (
              field "sessions"
                (list (
                  cons
                    (session 2 "s20260802-101500-4242" (str "claude")
                      (exact 4300 (str "0c5a8f12-1b2c-4d5e-8f90-abcdefabcdef")))
                    (cons (session 1 "main" (str "shell") (exact 4400 null)) nil)))
                (field "outside_agents"
                  (list (
                    cons
                      (object (
                        field "provider" (str "claude")
                          (field "identity" (exact 4500 outside_uuid) end)))
                      nil))
                  end)))))))

abbrev elsewhere : Value
elsewhere = str "1c5a8f12-1b2c-4d5e-8f90-abcdefabcdef"

abbrev the_same : Value
the_same = str "0C5A8F12-1b2c-4d5e-8f90-abcdefabcdef"

guarded : guard_live_inventory ascii 1 (inventory elsewhere) ≡ true
unfolding generation_is_quarantined follows_policy is_proven_row add_number is_unknown_identity
    add_conversation add_provider guard_proven guard_row outside_row is_live guard_live_inventory
    get equal valid_uuid is_provider clean_text shpool_id_mutation_policy is_generated_id
    is_legacy_id missing_shell_generation_is_quarantinable string_dec
guarded = refl

strict : strict_live_inventory ascii 1 (inventory elsewhere) ≡ true
unfolding strict_live_inventory strict_row generation_is_quarantined follows_policy is_proven_row
    add_number is_unknown_identity add_conversation add_provider guard_proven guard_row outside_row
    is_live guard_live_inventory get equal valid_uuid is_provider clean_text
    shpool_id_mutation_policy is_generated_id is_legacy_id missing_shell_generation_is_quarantinable
    string_dec
strict = refl

-- A conversation that also runs outside passes the guard, and the strict rules refuse it.
twice :
    (guard_live_inventory ascii 1 (inventory the_same) ≡ true)
    × (strict_live_inventory ascii 1 (inventory the_same) ≡ false)
unfolding strict_live_inventory strict_row generation_is_quarantined follows_policy is_proven_row
    add_number is_unknown_identity add_conversation add_provider guard_proven guard_row outside_row
    is_live guard_live_inventory get equal valid_uuid is_provider clean_text
    shpool_id_mutation_policy is_generated_id is_legacy_id missing_shell_generation_is_quarantinable
    string_dec
twice = (refl, refl)

guard_live_inventory-IsUnambiguous_example :
    IsUnambiguous ascii
      (elements (get "sessions" (inventory elsewhere)))
      (elements (get "outside_agents" (inventory elsewhere)))
guard_live_inventory-IsUnambiguous_example =
    guard_live_inventory-IsUnambiguous ascii 1 (inventory elsewhere) guarded

strict_live_inventory-AllNew_example :
    (guard_live_inventory ascii 1 (inventory elsewhere) ≡ true)
    × AllNew same_conversation [] (
        keys exact_conversation (elements (get "sessions" (inventory elsewhere)))
        ++ keys exact_conversation (elements (get "outside_agents" (inventory elsewhere))))
strict_live_inventory-AllNew_example =
    strict_live_inventory-AllNew ascii 1 (inventory elsewhere) strict
