-- ===== src/Selection/Grammar.antt =====
-- lib/sessionkit_inventory/common.py: `parse_number_selection`. A Python set of numbers is the
-- ascending list of its elements.
use Prim.Native.Char.{code}
use Prim.Native.String.{◌++◌}
use session_kit.Base.{
  ℕ, suc, zero, ◌+◌, ◌-◌, ◌*◌, String, Bool, true, false, ◌&&◌, ◌||◌, List, [], ◌∷◌, Option, none,
  some, ltb, leb, ◌==◌, ◌=~◌, any, if◌then◌else◌,
}
use session_kit.Base.Result.{Raising}
pub use session_kit.Base.Result.{ok, err, Result-cases, ok-injective, ◌>>=◌}
use session_kit.Json.{Value, str}
use session_kit.Common.Text.{Unicode, split, is_digit, all_digits}

-- `SELECTION_GRAMMAR`, the width of a range, and the bounds.
pub data Error : Type 0 where
  grammar range_too_wide out_of_bounds : Error

abbrev pub Result {ℓ} : Type ℓ → Type ℓ
Result A = Raising Error A

abbrev pub max_selection_span : ℕ
max_selection_span = 200

-- `text.split(sep)`, with the piece under way.
unfoldable pub split_at : ℕ → String → String → List String
split_at sep piece String.[] = piece ∷ []
split_at sep piece (String.◌∷◌ c s) =
    if code c == sep then piece ∷ split_at sep "" s else split_at sep (piece ++ String.◌∷◌ c "") s

-- `part.partition("-")`, where there is a dash.
unfoldable pub partition : String → String → Option (String × String)
partition first String.[] = none
partition first (String.◌∷◌ c s) =
    let rest = partition (first ++ String.◌∷◌ c "") s in
    if code c == b'-' then some (first, s) else rest

-- `ASCII_DIGITS_RE.fullmatch`
unfoldable pub is_digits : String → Bool
is_digits String.[] = false
is_digits (String.◌∷◌ c s) = is_digit c && all_digits s

-- `int(s)`, for digits.
unfoldable pub int_of : ℕ → String → ℕ
int_of n String.[] = n
int_of n (String.◌∷◌ c s) = int_of (10 * n + (code c - b'0')) s

-- `picked.add(n)`
unfoldable pub add : ℕ → List ℕ → List ℕ
add n [] = n ∷ []
add n (x ∷ xs) =
    let rest = add n xs in if ltb n x then n ∷ x ∷ xs else if n == x then x ∷ xs else x ∷ rest

-- `picked.update(range(low, low + width))`
unfoldable pub add_range : ℕ → ℕ → List ℕ → List ℕ
add_range low zero picked = picked
add_range low (suc width) picked = add_range (suc low) width (add low picked)

-- What one word names: its first number and how many.
unfoldable pub range_of : String → Result (ℕ × ℕ)
unfolding is_digits int_of
range_of part = elim (partition "" part) [
  | some (first, last) ↦
      if is_digits first && is_digits last
      then if ltb (int_of 0 last) (int_of 0 first)
        then err grammar
        else if leb max_selection_span (int_of 0 last - int_of 0 first)
        then err range_too_wide
        else ok (int_of 0 first, suc (int_of 0 last - int_of 0 first))
      else err grammar
  | none ↦ if is_digits part then ok (int_of 0 part, 1) else err grammar
]

unfoldable pub add_part : String → List ℕ → Result (List ℕ)
add_part part picked = range_of part >>= λ r. ok (add_range r.0 r.1 picked)

unfoldable pub add_parts : List String → List ℕ → Result (List ℕ)
add_parts [] picked = ok picked
add_parts (part ∷ parts) picked = add_part part picked >>= add_parts parts

-- An entry between commas; an empty one is a typo.
unfoldable pub add_chunk : List String → List ℕ → Result (List ℕ)
add_chunk [] picked = err grammar
add_chunk (part ∷ parts) picked = add_parts (part ∷ parts) picked

unfoldable pub add_chunks : Unicode → List String → List ℕ → Result (List ℕ)
add_chunks u [] picked = ok picked
add_chunks u (chunk ∷ chunks) picked = add_chunk (split u "" chunk) picked >>= add_chunks u chunks

-- The tests on the numbers that are picked.
unfoldable pub checked : ℕ → List ℕ → Result (List ℕ)
checked count [] = err grammar
checked count (x ∷ xs) =
    if any (λ n. ltb n 1 || ltb count n) (x ∷ xs) then err out_of_bounds else ok (x ∷ xs)

-- `answer.strip()`
unfoldable pub strip_left : Unicode → String → String
strip_left u String.[] = ""
strip_left u (String.◌∷◌ c s) = elim (u.is_space c) [
  | true ↦ strip_left u s
  | false ↦ String.◌∷◌ c s
]

unfoldable pub strip_right : Unicode → String → String
strip_right u String.[] = ""
strip_right u (String.◌∷◌ c s) =
    let rest = strip_right u s in if u.is_space c && rest =~ "" then "" else String.◌∷◌ c rest

unfoldable pub stripped : Unicode → String → String
stripped u s = u.casefold (strip_right u (strip_left u s))

unfoldable pub select : Unicode → ℕ → String → Result (List ℕ)
select u count text =
    if text =~ ""
    then ok []
    else if text =~ "a" || text =~ "all"
    then ok (add_range 1 count [])
    else add_chunks u (split_at b',' "" text) [] >>= checked count

unfoldable pub parse_number_selection : Unicode → Value → ℕ → Result (List ℕ)
parse_number_selection u (str answer) count = select u count (stripped u answer)
parse_number_selection u _ count = err grammar
