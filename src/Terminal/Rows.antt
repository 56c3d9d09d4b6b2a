-- ===== src/Terminal/Rows.antt =====
-- terminal.py: what a numbered row shows, and how a row of a run comes out.
use session_kit.Base.{
  ℕ, ◌≡◌, refl, String, true, false, List, [], ◌∷◌, Option, none, some, string_dec,
}
use session_kit.Base.Int.{pos}
use session_kit.Json.{
  Value, object, null, bool, int, str, get, put, pop, is_mapping, field_or_null-set_field,
  field_or_null-drop_field,
}
use session_kit.Terminal.Number.{with_number, quarantined}

abbrev pub shown : Value → Option ℕ
shown (int (pos n)) = some n
shown _ = none

-- The number on a row, if it has one.
unfoldable pub row_number : Value → Option ℕ
row_number item = shown (get "terminal_number" item)

abbrev pub cons_shown : Option ℕ → List ℕ → List ℕ
cons_shown none ns = ns
cons_shown (some n) ns = n ∷ ns

unfoldable pub row_numbers : List Value → List ℕ
row_numbers [] = []
row_numbers (item ∷ rest) = cons_shown (row_number item) (row_numbers rest)

pub row_number-with_number :
    (n : Option ℕ) (item : Value) → is_mapping item ≡ true → row_number (with_number n item) ≡ n
unfolding row_number with_number get put pop string_dec
row_number-with_number none (object fs) h = rw (
  field_or_null-drop_field "_terminal_identity_hint" "terminal_number" _,
  field_or_null-set_field "terminal_number" "terminal_number" null fs,
)
row_number-with_number (some n) (object fs) h = rw (
  field_or_null-drop_field "_terminal_identity_hint" "terminal_number" _,
  field_or_null-set_field "terminal_number" "terminal_number" (int (pos n)) fs,
)
row_number-with_number n _ h = cc

pub row_number-quarantined :
    (reason : String) (item : Value) → row_number (quarantined reason item) ≡ none
unfolding row_number quarantined get put pop string_dec
row_number-quarantined reason (object fs) = rw (
  field_or_null-drop_field "_terminal_identity_hint" "terminal_number" _,
  field_or_null-set_field "mutation_rejection_reason" "terminal_number" (str reason) _,
  field_or_null-set_field "mutation_allowed" "terminal_number" (bool false) _,
  field_or_null-set_field "terminal_number" "terminal_number" null fs,
)
row_number-quarantined reason _ = refl
