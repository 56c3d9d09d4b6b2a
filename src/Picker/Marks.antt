-- ===== src/Picker/Marks.antt =====
-- lib/sessionkit_tui/rows.py: the numbers and the filter that a person types. The screen takes
-- ASCII keys only, so a digit is an ASCII digit.
use Prim.Native.Char.{Char, code}
use session_kit.Base.{
  ℕ, suc, zero, ◌-◌, ◌≡◌, refl, String, Bool, true, false, ◌&&◌, ◌||◌, List, [], ◌∷◌, ◌++◌ as ◌⊕◌,
  Option, none, some, leb, ◌==◌, ◌=~◌, contains, if◌then◌else◌, string_dec,
}
use session_kit.Common.Text.{Unicode}
use session_kit.Selection.Grammar.{split_at, partition, is_digits, int_of}

-- `character.isalpha()`, of ASCII.
abbrev is_letter : Char → Bool
is_letter c = (leb b'a' (code c) && leb (code c) b'z') || (leb b'A' (code c) && leb (code c) b'Z')

unfoldable pub is_filter : String → Bool
is_filter String.[] = false
is_filter (String.◌∷◌ c s) = is_letter c || is_filter s

-- `text.replace(" ", "")`
unfoldable pub without_spaces : String → String
without_spaces String.[] = ""
without_spaces (String.◌∷◌ c s) =
    let rest = without_spaces s in if code c == b' ' then rest else String.◌∷◌ c rest

-- `if number not in numbers: numbers.append(number)`
unfoldable pub append_new : ℕ → List ℕ → List ℕ
append_new n numbers = if contains n numbers then numbers else numbers ⊕ (n ∷ [])

-- `range(first, last + step, step)`, by its length.
unfoldable pub append_up : ℕ → ℕ → List ℕ → List ℕ
append_up first zero numbers = numbers
append_up first (suc n) numbers = append_up (suc first) n (append_new first numbers)

unfoldable pub append_down : ℕ → ℕ → List ℕ → List ℕ
append_down first zero numbers = numbers
append_down first (suc n) numbers = append_down (first - 1) n (append_new first numbers)

unfoldable pub append_range : ℕ → ℕ → List ℕ → List ℕ
append_range first last numbers =
    if leb first last
    then append_up first (suc (last - first)) numbers
    else append_down first (suc (first - last)) numbers

-- The numbers so far, and the fragments that name nothing.
abbrev pub Parsed : Type 0
Parsed = List ℕ × List String

-- A fragment that is no range.
unfoldable pub read_single : String → Parsed → Parsed
read_single fragment (numbers, unusable) =
    if is_digits fragment
    then (append_new (int_of 0 fragment) numbers, unusable)
    else (numbers, unusable ⊕ (fragment ∷ []))

unfoldable pub read_fragment : String → Parsed → Parsed
read_fragment fragment p = elim (partition "" fragment) [
  | some (first, last) ↦
      if is_digits first && is_digits last
      then (append_range (int_of 0 first) (int_of 0 last) p.0, p.1)
      else read_single fragment p
  | none ↦ read_single fragment p
]

unfoldable pub read_fragments : List String → Parsed → Parsed
read_fragments [] p = p
read_fragments (f ∷ fs) p = read_fragments fs (if f =~ "" then p else read_fragment f p)

unfoldable pub parse_marks : String → Parsed
parse_marks text = read_fragments (split_at b',' "" (without_spaces text)) ([], [])

-- `haystack.find(character, position)`: what follows the character.
unfoldable pub after : Char → String → Option String
after c String.[] = none
after c (String.◌∷◌ d s) = let rest = after c s in if code c == code d then some s else rest

unfoldable pub matches_from : String → String → Bool
matches_from String.[] hay = true
matches_from (String.◌∷◌ c s) hay = elim (after c hay) [
  | none ↦ false
  | some rest ↦ matches_from s rest
]

-- Loose, in-order matching.
unfoldable pub matches : Unicode → String → String → Bool
matches u needle hay = matches_from (without_spaces (u.casefold needle)) hay

marked : parse_marks "1, 4,9-7,x,4" ≡ (1 ∷ 4 ∷ 9 ∷ 8 ∷ 7 ∷ [], "x" ∷ [])
unfolding parse_marks read_fragments read_fragment read_single append_range append_down append_up
    append_new without_spaces split_at partition is_digits int_of string_dec
marked = refl
