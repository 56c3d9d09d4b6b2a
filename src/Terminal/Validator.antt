-- ===== src/Terminal/Validator.antt =====
-- state_io.py, `_empty_terminal_registry` and `_validate_terminal_registry`: the registry that a run
-- starts from. A raised error is `none`.
use session_kit.Base.{
  ℕ, ◌<◌, ◌≡◌, refl, subst, inl, inr, String, Bool, true, false, ◌&&◌, not, [], ◌∷◌, Option, none,
  some, arith, All, any, leb, ◌==◌, ◌=~◌, all_of, if◌then◌else◌, Bool-cases, Option-cases,
}
use session_kit.Base.Int.{pos}
use session_kit.Base.Assoc.{Dict}
use session_kit.Json.{
  Value, int, str, object, Fields, end, field, get, is_mapping, is_positive_int, natural, equal,
  fields, has,
}
use session_kit.Common.{valid_uuid, is_digest}
use session_kit.Common.Text.{strip}
use session_kit.Terminal.Keys.{is_ai}
use session_kit.Terminal.Registry.{Registry, numbers_of}
use session_kit.Terminal.Number.{max_of}
use session_kit.Terminal.Bounds.{InRange, IsSound}

abbrev pub empty_registry : String → Registry
empty_registry boot_id = record { boot_id = boot_id; next_number = 1; bindings = [] }

abbrev is_exact : String → Bool
is_exact uuid = elim (valid_uuid (str uuid)) [ none ↦ false | some checked ↦ uuid =~ checked ]

-- `ai:`, a provider, `:`, and an exact UUID.
unfoldable pub is_ai_key : String → Bool
is_ai_key key = elim (strip "ai:claude:" key) [
  | some uuid ↦ is_exact uuid
  | none ↦ elim (strip "ai:codex:" key) [ none ↦ false | some uuid ↦ is_exact uuid ]
]

-- `generation:[0-9a-f]{64}`
unfoldable pub is_generation_key : String → Bool
is_generation_key key = elim (strip "generation:" key) [
  | none ↦ false
  | some digest ↦ is_digest (str digest)
]

-- The number is bound to another key of the same kind.
abbrev conflicts : String → ℕ → Dict ℕ → Bool
conflicts key n = any (λ e. (e.1 == n) && not (e.0 =~ key))

-- A binding joins those of its kind, the conversations or the shell generations, or is refused.
unfoldable pub classified : String → ℕ → Dict ℕ × Dict ℕ → Option (Dict ℕ × Dict ℕ)
classified key n (ai, generations) =
    if is_ai key
    then (if is_ai_key key && not (conflicts key n ai)
        then some ((key, n) ∷ ai, generations)
        else none)
    else if is_generation_key key && not (conflicts key n generations)
    then some (ai, (key, n) ∷ generations)
    else none

-- The loop over the bindings.
unfoldable pub checked_bindings : Fields → Dict ℕ × Dict ℕ → Option (Dict ℕ)
checked_bindings end seen = some []
checked_bindings (field key value rest) seen = elim (classified key (natural value) seen) [
  | none ↦ none
  | some more ↦ elim (checked_bindings rest more) [
    | none ↦ none
    | some checked ↦ if is_positive_int value then some ((key, natural value) ∷ checked) else none
  ]
]

abbrev fields_of : Value → Fields
fields_of (object fs) = fs
fields_of _ = end

abbrev is_nonempty : Value → Bool
is_nonempty (str s) = not (s =~ "")
is_nonempty _ = false

abbrev text : Value → String
text (str s) = s
text _ = ""

unfoldable pub has_valid_fields : ℕ → Value → Bool
has_valid_fields schema_version raw = all_of (
    is_mapping raw
    ∷ (fields (fields_of raw) == 4)
    ∷ has "schema_version" raw
    ∷ has "boot_id" raw
    ∷ has "next_number" raw
    ∷ has "bindings" raw
    ∷ equal (get "schema_version" raw) (int (pos schema_version))
    ∷ is_nonempty (get "boot_id" raw)
    ∷ is_positive_int (get "next_number" raw)
    ∷ is_mapping (get "bindings" raw)
    ∷ [])

-- A registry of an earlier boot is checked, and then forgotten.
unfoldable pub accepted : String → Value → Dict ℕ → Option Registry
accepted boot_id raw checked =
    let next_number = natural (get "next_number" raw) in
    if leb next_number (max_of (numbers_of checked))
    then none
    else if text (get "boot_id" raw) =~ boot_id
    then some (record { boot_id = boot_id; next_number = next_number; bindings = checked })
    else some (empty_registry boot_id)

unfoldable pub validate_terminal_registry : ℕ → String → Value → Option Registry
validate_terminal_registry schema_version boot_id raw =
    if has_valid_fields schema_version raw
    then (elim (checked_bindings (fields_of (get "bindings" raw)) ([], [])) [
      | none ↦ none
      | some checked ↦ accepted boot_id raw checked
    ])
    else none

checked_bindings-positive :
    (fs : Fields) (seen : Dict ℕ × Dict ℕ) (d : Dict ℕ)
    → checked_bindings fs seen ≡ some d
    → All (λ e. 0 < e.1) d
unfolding checked_bindings
checked_bindings-positive end seen d h =
    let same : [] ≡ d = cc in subst (All (λ e. 0 < e.1)) same tt
checked_bindings-positive (field key value rest) seen d h =
    elim (Option-cases (classified key (natural value) seen)) [
      | inl e ↦ absurd (ground arith)
      | inr (more, e) ↦ elim (Option-cases (checked_bindings rest more)) [
        | inl f ↦ absurd (ground arith)
        | inr (checked, f) ↦ elim (Bool-cases (is_positive_int value)) [
          | inr g ↦ absurd (ground arith)
          | inl g ↦
              let same : (key, natural value) ∷ checked ≡ d = ground arith in
              subst (All (λ e. 0 < e.1)) same
                (positive_natural value g, checked_bindings-positive rest more checked f)
        ]
      ]
    ]
  where
    positive_natural : (v : Value) → is_positive_int v ≡ true → 0 < natural v
    positive_natural (int (pos n)) h = ground arith
    positive_natural v h = cc

below_max :
    (d : Dict ℕ) (next : ℕ)
    → All (λ e. 0 < e.1) d
    → leb next (max_of (numbers_of d)) ≡ false
    → All (InRange next) d
below_max [] next p h = tt
below_max (e ∷ d) next p h = ((p.0, ground arith), below_max d next p.1 (ground arith))

accepted-IsSound :
    (boot_id : String) (raw : Value) (checked : Dict ℕ) (r : Registry)
    → All (λ e. 0 < e.1) checked
    → accepted boot_id raw checked ≡ some r
    → IsSound r × (r.boot_id ≡ boot_id)
unfolding accepted
accepted-IsSound boot_id raw checked r p h =
    let next_number = natural (get "next_number" raw) in
    elim (Bool-cases (leb next_number (max_of (numbers_of checked)))) [
      | inl m ↦ absurd (ground arith)
      | inr m ↦ elim (Bool-cases (text (get "boot_id" raw) =~ boot_id)) [
        | inl b ↦
            let same : record { boot_id = boot_id; next_number = next_number; bindings = checked }
                ≡ r =
              ground arith in
            subst (λ x. IsSound x × (x.boot_id ≡ boot_id)) same
              (
                record { positive = ground arith; in_range = below_max checked next_number p m },
                refl,
              )
        | inr b ↦
            let same : empty_registry boot_id ≡ r = ground arith in
            subst (λ x. IsSound x × (x.boot_id ≡ boot_id)) same
              (record { positive = omega arith; in_range = tt }, refl)
      ]
    ]

-- What the validator accepts is a registry of this boot whose numbers are positive and below
-- `next_number`.
pub validate_terminal_registry-IsSound :
    (schema_version : ℕ) (boot_id : String) (raw : Value) (r : Registry)
    → validate_terminal_registry schema_version boot_id raw ≡ some r
    → IsSound r × (r.boot_id ≡ boot_id)
unfolding validate_terminal_registry
validate_terminal_registry-IsSound schema_version boot_id raw r h =
    elim (Bool-cases (has_valid_fields schema_version raw)) [
      | inr m ↦ absurd (ground arith)
      | inl m ↦ elim (Option-cases (checked_bindings (fields_of (get "bindings" raw)) ([], []))) [
        | inl f ↦ absurd (ground arith)
        | inr (checked, f) ↦
            accepted-IsSound boot_id raw checked r (checked_bindings-positive _ _ checked f)
              (ground arith)
      ]
    ]
