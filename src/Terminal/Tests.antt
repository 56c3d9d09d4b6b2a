-- ===== src/Terminal/Tests.antt =====
-- terminal.py: a run of the numbering on a small inventory, and the theorems at it.
use session_kit.Base.{
  ◌⊎◌, none, ℕ, ◌≤◌, ◌≡◌, refl, String, true, false, ◌&&◌, ◌||◌, not, List, [], ◌∷◌, some, arith,
  contains, IsDistinct, Paired, string_dec,
}
use session_kit.Base.Int.{pos}
use session_kit.Json.{Value, int, str, list, cons, object, field, end, get, put, pop}
use session_kit.Common.{only, is_digest, valid_uuid, is_provider}
use session_kit.Common.Text.{ascii}
use session_kit.Json.{has, equal}
use session_kit.Terminal.Keys.{terminal_generation_key, terminal_ai_key, ai_key_of}
use session_kit.Terminal.Number.{
  Result, ok, err, two_sessions_one_number, registry_refused, Outcome, apply_terminal_numbers,
  number_rows, number_row, choose, generation_number, allocate_number, claim, with_number,
  quarantined, quarantine_reason, outcome, retire, final_next, start_pass, keys_of, kept_bindings,
  freed, mode_of,
}
use session_kit.Terminal.Registry.{
  Registry, Retirements, numbers_of, next_free, is_retired, forget_all,
}
use session_kit.Terminal.Rows.{row_number, row_numbers}
use session_kit.Terminal.Distinct.{apply_terminal_numbers-IsDistinct}
use session_kit.Terminal.Entitled.{Entitled, apply_terminal_numbers-Entitled}
use session_kit.Terminal.Bounds.{IsSound, apply_terminal_numbers-IsSound}
use session_kit.Terminal.Continuity.{Continues, apply_terminal_numbers-Continues}
use session_kit.Terminal.Errors.{apply_terminal_numbers-error}
use session_kit.Terminal.Validator.{
  is_ai_key, is_generation_key, classified, checked_bindings, has_valid_fields, accepted,
  validate_terminal_registry, validate_terminal_registry-IsSound,
}
use session_kit.Terminal.Retire.{has_stamp, apply_terminal_numbers-retires}

-- A digest for tests: the raw shpool ID that is hashed.
abbrev raw_id : Value → String
raw_id (list (cons boot (cons (str raw) rest))) = raw
raw_id _ = ""

abbrev uuid : String
uuid = "0c5a8f12-1b2c-4d5e-8f90-abcdefabcdef"

abbrev shell : ℕ → Value
shell pid = object (field "pid" (int (pos pid)) (field "process_start_ticks" (int (pos 7)) end))

-- A conversation that was restored into a new shell, and a plain shell.
abbrev restored : Value
restored = object (
    field "shpool_id_raw" (str "s20260802-101500-4242") (
      field "started_at_unix_ms" (int (pos 9000)) (
        field "shpool_shell" (shell 4242) (
          field "provider" (str "claude") (
            field "identity"
              (object (field "confidence" (str "exact") (field "uuid" (str uuid) end))) end)))))

abbrev plain : Value
plain = object (
    field "shpool_id_raw" (str "s20260802-101600-4300") (
      field "started_at_unix_ms" (int (pos 9500))
        (field "shpool_shell" (shell 4300) (field "provider" (str "shell") end))))

-- Number 3 is in quarantine since 150, number 1 since 50.
abbrev registry : Registry
registry = record {
  boot_id = "boot";
  next_number = 4;
  bindings = ("ai:claude:0c5a8f12-1b2c-4d5e-8f90-abcdefabcdef", 3) ∷ ("generation:gone", 1) ∷ [];
}

abbrev ledger : Retirements
ledger = (3, 150) ∷ (1, 50) ∷ []

abbrev sessions : List Value
sessions = restored ∷ plain ∷ []

abbrev run : Result Outcome
run = apply_terminal_numbers ascii raw_id "boot" 200 100 true (some ledger) sessions (some registry)

abbrev after : Outcome
after = record {
  sessions = with_number (some 3) restored ∷ with_number (some 1) plain ∷ [];
  registry = record {
    boot_id = "boot";
    next_number = 4;
    bindings =
        ("ai:claude:0c5a8f12-1b2c-4d5e-8f90-abcdefabcdef", 3)
        ∷ ("generation:s20260802-101500-4242", 3)
        ∷ ("generation:s20260802-101600-4300", 1)
        ∷ [];
  };
  retired = some [];
}

-- The conversation keeps its number, and the lowest free number is the one whose quarantine is over.
run-after : run ≡ ok after
unfolding apply_terminal_numbers number_rows number_row choose generation_number allocate_number
    claim with_number quarantined quarantine_reason outcome retire final_next start_pass string_dec
    terminal_generation_key terminal_ai_key ai_key_of valid_uuid is_provider get put pop next_free
run-after = refl

registry-IsSound : IsSound registry
registry-IsSound = omega arith

apply_terminal_numbers-IsDistinct_example : IsDistinct (row_numbers after.sessions)
apply_terminal_numbers-IsDistinct_example =
    apply_terminal_numbers-IsDistinct ascii raw_id "boot" 200 100 true (some ledger) sessions
      registry after run-after

apply_terminal_numbers-Entitled_example :
    Paired
      (λ item item'.
        Entitled
          (kept_bindings ascii raw_id "boot" 200 100 true (some ledger) registry)
          (keys_of ascii raw_id "boot" (mode_of true (some ledger)) item)
          (row_number item'))
      sessions
      after.sessions
apply_terminal_numbers-Entitled_example =
    apply_terminal_numbers-Entitled ascii raw_id "boot" 200 100 true (some ledger) sessions registry
      after run-after

apply_terminal_numbers-IsSound_example :
    IsSound after.registry × (registry.next_number ≤ after.registry.next_number)
apply_terminal_numbers-IsSound_example =
    apply_terminal_numbers-IsSound ascii raw_id "boot" 200 100 true (some ledger) sessions registry
      after registry-IsSound run-after

apply_terminal_numbers-Continues_example :
    Paired
      (Continues ascii raw_id "boot"
        (mode_of true (some ledger))
        (kept_bindings ascii raw_id "boot" 200 100 true (some ledger) registry))
      sessions
      after.sessions
apply_terminal_numbers-Continues_example =
    apply_terminal_numbers-Continues ascii raw_id "boot" 200 100 true (some ledger) sessions
      registry after run-after

apply_terminal_numbers-retires_example :
    let kept = forget_all (freed ascii raw_id "boot" 200 100 true (some ledger)) ledger in
    (l' : Retirements) × (after.retired ≡ some l')
    × ((n : ℕ)
        → is_retired n l' ≡ (
            not (contains n (row_numbers after.sessions))
            && (contains n (numbers_of after.registry.bindings)
                || contains n (numbers_of registry.bindings)
                || is_retired n kept)))
    × ((n s : ℕ)
        → contains n (row_numbers after.sessions) ≡ false
        → has_stamp n s kept ≡ true
        → has_stamp n s l' ≡ true)
apply_terminal_numbers-retires_example =
    apply_terminal_numbers-retires ascii raw_id "boot" 200 100 ledger sessions registry after
      run-after

-- A stored registry of this boot.
abbrev stored_registry : Value
stored_registry = object (
    field "schema_version" (int (pos 1)) (
      field "boot_id" (str "boot") (
        field "next_number" (int (pos 4)) (
          field "bindings"
            (object (
              field "ai:claude:0c5a8f12-1b2c-4d5e-8f90-abcdefabcdef" (int (pos 3)) (
                field "generation:00112233445566778899aabbccddeeff00112233445566778899aabbccddeeff"
                  (int (pos 3)) end)))
            end))))

abbrev read_registry : Registry
read_registry = record {
  boot_id = "boot";
  next_number = 4;
  bindings =
      ("ai:claude:0c5a8f12-1b2c-4d5e-8f90-abcdefabcdef", 3)
      ∷ ("generation:00112233445566778899aabbccddeeff00112233445566778899aabbccddeeff", 3)
      ∷ [];
}

registry_read : validate_terminal_registry 1 "boot" stored_registry ≡ some read_registry
unfolding is_ai_key is_generation_key classified checked_bindings has_valid_fields accepted
    validate_terminal_registry valid_uuid is_digest only get has equal string_dec
registry_read = refl

validate_terminal_registry-IsSound_example :
    IsSound read_registry × (read_registry.boot_id ≡ "boot")
validate_terminal_registry-IsSound_example =
    validate_terminal_registry-IsSound 1 "boot" stored_registry read_registry registry_read

-- Two rows of one conversation are refused.
run_twice :
    apply_terminal_numbers ascii raw_id "boot" 200 100 true
      (some ledger)
      (restored ∷ restored ∷ [])
      (validate_terminal_registry 1 "boot" stored_registry)
    ≡ err two_sessions_one_number
unfolding is_ai_key is_generation_key classified checked_bindings has_valid_fields accepted
    validate_terminal_registry is_digest only has equal apply_terminal_numbers number_rows
    number_row choose generation_number allocate_number claim with_number quarantined
    quarantine_reason outcome retire final_next start_pass string_dec terminal_generation_key
    terminal_ai_key ai_key_of valid_uuid is_provider get put pop next_free
run_twice = refl

apply_terminal_numbers-error_example :
    ((validate_terminal_registry 1 "boot" stored_registry ≡ none)
      × (two_sessions_one_number ≡ registry_refused))
    ⊎ ((r : Registry) × (validate_terminal_registry 1 "boot" stored_registry ≡ some r)
        × (two_sessions_one_number ≡ two_sessions_one_number))
apply_terminal_numbers-error_example =
    apply_terminal_numbers-error ascii raw_id "boot" 200 100 (some ledger)
      (restored ∷ restored ∷ []) 1 stored_registry two_sessions_one_number (refl, (refl, tt))
      run_twice
