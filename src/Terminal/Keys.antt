-- ===== src/Terminal/Keys.antt =====
-- The keys of the terminal number registry: one for a shell generation (state_io.py), one for a
-- provider conversation (terminal.py).
use Prim.Native.String.{◌++◌}
use text.Mathlib.Text.{starts_with}
use session_kit.Base.{
  String, Bool, ◌&&◌, not, Option, none, some, ◌=~◌, if◌then◌else◌, any_of, [], ◌∷◌,
}
use session_kit.Json.{
  Value, str, list, cons, nil, get, is_positive_int, is_text, is_mapping, text_of,
}
use session_kit.Common.{valid_uuid, is_provider}

-- `key.startswith("ai:")`, `key.startswith("generation:")`
abbrev pub is_ai : String → Bool
is_ai key = starts_with key "ai:"

abbrev pub is_generation : String → Bool
is_generation key = starts_with key "generation:"

abbrev pub ai_text : String → String → String
ai_text provider uuid = "ai:" ++ (provider ++ (":" ++ uuid))

-- `digest` is the hexadecimal SHA-256 of the compact JSON text of a value.
module _ (digest : Value → String) where
  abbrev pub keyed : String → String → Value → Value → Value → Option String
  keyed boot_id raw_id started pid ticks =
      if raw_id =~ ""
      then none
      else some (
          "generation:"
          ++ digest (
              list (
                cons (str boot_id) (cons (str raw_id) (cons started (cons pid (cons ticks nil)))))))

  -- state_io.py: `_terminal_generation_key`
  unfoldable pub terminal_generation_key : String → Value → Option String
  terminal_generation_key boot_id item =
      let shell = get "shpool_shell" item in
      let started = get "started_at_unix_ms" item in
      let pid = get "pid" shell in
      let ticks = get "process_start_ticks" shell in
      if any_of (
        not (is_positive_int started)
        ∷ not (is_positive_int pid)
        ∷ not (is_positive_int ticks)
        ∷ [])
      then none
      else elim (text_of (get "shpool_id_raw" item)) [
        | none ↦ none
        | some raw_id ↦ keyed boot_id raw_id started pid ticks
      ]

-- `f"ai:{provider}:{uuid}"` if both are exact.
unfoldable pub ai_key_of : Value → Value → Option String
ai_key_of provider uuid = elim (is_provider provider) [
  | none ↦ none
  | some p ↦ elim (valid_uuid uuid) [ none ↦ none | some u ↦ some (ai_text p u) ]
]

abbrev pub hinted_key : Value → Option String
hinted_key hint =
    if is_mapping hint then ai_key_of (get "provider" hint) (get "uuid" hint) else none

-- terminal.py: `_terminal_ai_key`. An exact identity wins, then the hint of an earlier pass.
unfoldable pub terminal_ai_key : Value → Option String
terminal_ai_key item =
    let identity = get "identity" item in
    let hinted = hinted_key (get "_terminal_identity_hint" item) in
    if is_mapping identity && is_text "exact" (get "confidence" identity)
    then elim (ai_key_of (get "provider" item) (get "uuid" identity)) [
      | none ↦ hinted
      | some key ↦ some key
    ]
    else hinted
