-- ===== src/Lifecycle/Intents.antt =====
-- lib/sessionkit_inventory/lifecycle.py: the tombstones of conversations that were closed on
-- purpose. Every call reads and replaces the whole document under one lock. A missing document is
-- `null`, a raised error `none`. Moments are milliseconds. `size` is the length of a document as it is
-- written.
use Prim.Native.String.{◌++◌}
use session_kit.Base.{
  ℕ, ◌+◌, String, Bool, true, false, ◌&&◌, List, [], ◌∷◌, Option, none, some, leb, ltb, not,
  keep_if, if◌then◌else◌,
}
use session_kit.Base.Int.{ℤ, pos, pos_part, neg_part}
use session_kit.Base.Assoc.{Dict, lookup, insert}
use session_kit.Json.{Value, int, object, Fields, end, field, get, is_mapping, is_none, equal}
use session_kit.Common.{valid_uuid, is_provider}

abbrev pub int_of : Value → Option ℤ
int_of (int z) = some z
int_of _ = none

-- The entries that have a moment; any other one is dropped.
unfoldable pub closed_entries : Fields → Dict ℤ
closed_entries end = []
closed_entries (field key entry rest) =
    let kept = closed_entries rest in
    elim (int_of (get "at_unix_ms" entry)) [ none ↦ kept | some at_unix ↦ (key, at_unix) ∷ kept ]

abbrev pub fields_of : Value → Fields
fields_of (object fs) = fs
fields_of _ = end

-- `_validated_close_intents`
unfoldable pub validated_close_intents : Value → Dict ℤ
validated_close_intents value =
    if equal (get "schema_version" value) (int (pos 1)) && is_mapping (get "closed" value)
    then closed_entries (fields_of (get "closed" value))
    else []

abbrev pub entry_of : ℤ → Value
entry_of at_unix = object (field "at_unix_ms" (int at_unix) end)

abbrev pub closed_fields : Dict ℤ → Fields
closed_fields [] = end
closed_fields (e ∷ closed) = field e.0 (entry_of e.1) (closed_fields closed)

-- The document that is written.
unfoldable pub intent_document : Dict ℤ → Value
intent_document closed =
    object
      (field "schema_version" (int (pos 1)) (field "closed" (object (closed_fields closed)) end))

-- `entry["at_unix_ms"] >= now - retention`
abbrev pub is_fresh : ℕ → ℕ → String × ℤ → Bool
is_fresh now retention e = leb (now + neg_part e.1) (pos_part e.1 + retention)

abbrev pub max_close_intent_bytes : ℕ
max_close_intent_bytes = 262144

-- A document that is there and too long is not read.
abbrev pub is_too_long : (Value → ℕ) → Value → Bool
is_too_long size stored = not (is_none stored) && ltb max_close_intent_bytes (size stored)

unfoldable pub load_close_intents : (Value → ℕ) → ℕ → ℕ → Value → Option (Dict ℤ)
load_close_intents size now retention stored =
    if is_too_long size stored
    then none
    else some (keep_if (is_fresh now retention) (validated_close_intents stored))

-- `close_intent_key`
unfoldable pub close_intent_key : Value → Value → Option String
close_intent_key provider uuid = elim (is_provider provider) [
  | none ↦ none
  | some p ↦ elim (valid_uuid uuid) [ none ↦ none | some checked ↦ some (p ++ (":" ++ checked)) ]
]

-- What is stored after the call, if it does not raise.
unfoldable pub record_close_intent : (Value → ℕ) → Value → Value → ℕ → ℕ → Value → Option Value
record_close_intent size provider uuid now retention stored =
    elim (close_intent_key provider uuid) [
      | none ↦ none
      | some key ↦ elim (load_close_intents size now retention stored) [
        | none ↦ none
        | some closed ↦ some (intent_document (insert key (pos now) closed))
      ]
    ]

abbrev pub is_some {ℓ} : {A : Type ℓ} → Option A → Bool
is_some none = false
is_some (some a) = true

-- `document`: that of the argument `intents`, which is not asked for its age, or the stored one.
unfoldable pub intents_of : (Value → ℕ) → Option Value → ℕ → ℕ → Value → Option (Dict ℤ)
intents_of size (some intents) now retention stored = some (validated_close_intents intents)
intents_of size none now retention stored = load_close_intents size now retention stored

unfoldable pub closed_on_purpose :
    (Value → ℕ) → Value → Value → Option Value → ℕ → ℕ → Value → Option Bool
closed_on_purpose size provider uuid intents now retention stored =
    elim (close_intent_key provider uuid) [
      | none ↦ some false
      | some key ↦ elim (intents_of size intents now retention stored) [
        | none ↦ none
        | some closed ↦ some (is_some (lookup key closed))
      ]
    ]

-- One deliberate close, and a sequence of them.
pub record Close : Type 0 where
  pub provider : Value
  pub uuid : Value
  pub now : ℕ

unfoldable pub after_close : (Value → ℕ) → ℕ → Close → Value → Value
after_close size retention c stored =
    elim (record_close_intent size c.provider c.uuid c.now retention stored) [
      | none ↦ stored
      | some written ↦ written
    ]

unfoldable pub after_closes : (Value → ℕ) → ℕ → List Close → Value → Value
after_closes size retention [] stored = stored
after_closes size retention (c ∷ cs) stored =
    after_closes size retention cs (after_close size retention c stored)
