-- ===== src/Common/Text.antt =====
-- lib/sessionkit_inventory/common.py: cleaned display text, and which shpool IDs the kit may change.
use Prim.Native.Char.{Char, code}
use Prim.Native.String.{◌++◌, len}
use text.Mathlib.Text.{find?}
use session_kit.Base.{
  ℕ, zero, suc, ◌≡◌, refl, String, Bool, true, false, ◌&&◌, ◌||◌, List, [], ◌∷◌, Option, none, some,
  leb, ltb, ◌==◌, ◌=~◌, one_of, if◌then◌else◌, string_dec,
}
use session_kit.Json.{Value, str}

-- What the code asks of Python's Unicode tables: `unicodedata.category(c).startswith("C")`, the
-- white space of `str.split`, `str.casefold`, `str.title` and `repr`.
pub record Unicode : Type 0 where
  pub is_control : Char → Bool
  pub is_space : Char → Bool
  pub casefold : String → String
  pub title : String → String
  pub repr : String → String

-- `" " if control else c`, for each character.
abbrev pub blank_controls : Unicode → String → String
blank_controls u String.[] = ""
blank_controls u (String.◌∷◌ c s) =
    String.◌∷◌ (if u.is_control c then " " else c) (blank_controls u s)

abbrev flush : String → List String → List String
flush word rest = if word =~ "" then rest else word ∷ rest

-- `s.split()`, with the word under way.
abbrev pub split : Unicode → String → String → List String
split u word String.[] = flush word []
split u word (String.◌∷◌ c s) = elim (u.is_space c) [
  | true ↦ flush word (split u "" s)
  | false ↦ split u (word ++ String.◌∷◌ c "") s
]

-- `" ".join(words)`
abbrev pub join : List String → String
join [] = ""
join (w ∷ []) = w
join (w ∷ v ∷ ws) = w ++ (" " ++ join (v ∷ ws))

-- `text[:limit]`
abbrev pub cut : ℕ → String → String
cut zero s = ""
cut (suc n) String.[] = ""
cut (suc n) (String.◌∷◌ c s) = String.◌∷◌ c (cut n s)

unfoldable pub clean_text : Unicode → Value → ℕ → String
clean_text u (str s) limit = cut limit (join (split u "" (blank_controls u s)))
clean_text u _ limit = ""

abbrev any_char : (Char → Bool) → String → Bool
any_char p String.[] = false
any_char p (String.◌∷◌ c s) = p c || any_char p s

abbrev pub is_digit : Char → Bool
is_digit c = leb b'0' (code c) && leb (code c) b'9'

abbrev pub all_digits : String → Bool
all_digits String.[] = true
all_digits (String.◌∷◌ c s) = is_digit c && all_digits s

-- `[1-9][0-9]*`
abbrev is_number : String → Bool
is_number String.[] = false
is_number (String.◌∷◌ c s) = leb b'1' (code c) && leb (code c) b'9' && all_digits s

-- `[1-9][0-9]*(?:-[1-9][0-9]*)?`, of which the digits of the first number are under way.
abbrev number_tail : String → Bool
number_tail String.[] = true
number_tail (String.◌∷◌ c s) = if code c == b'-' then is_number s else is_digit c && number_tail s

abbrev numbers : String → Bool
numbers String.[] = false
numbers (String.◌∷◌ c s) = leb b'1' (code c) && leb (code c) b'9' && number_tail s

-- `n` digits, the dash, then what `rest` accepts.
abbrev digits_then : ℕ → (String → Bool) → String → Bool
digits_then zero rest String.[] = false
digits_then zero rest (String.◌∷◌ c s) = code c == b'-' && rest s
digits_then (suc n) rest String.[] = false
digits_then (suc n) rest (String.◌∷◌ c s) = is_digit c && digits_then n rest s

abbrev after_s : String → Bool
after_s String.[] = false
after_s (String.◌∷◌ c s) = code c == b's' && digits_then 8 (digits_then 6 numbers) s

-- `GENERATED_SESSION_RE.fullmatch` of reaper.py and `GENERATED_OPERATIONAL_ID_RE` of common.py
unfoldable pub is_generated_id : String → Bool
is_generated_id = after_s

-- `LEGACY_OPERATIONAL_ID_RE.fullmatch`: `main`, or `main` and a number.
abbrev pub strip : String → String → Option String
strip String.[] s = some s
strip (String.◌∷◌ c p) String.[] = none
strip (String.◌∷◌ c p) (String.◌∷◌ d s) =
    let rest = strip p s in if code c == code d then rest else none

unfoldable pub is_legacy_id : String → Bool
is_legacy_id s = elim (strip "main" s) [
  | none ↦ false
  | some rest ↦ if rest =~ "" then true else is_number rest
]

abbrev pub max_operational_id_bytes : ℕ
max_operational_id_bytes = 128

abbrev pub contains_text : String → String → Bool
contains_text s t = elim (find? s t) [ none ↦ false | some _ ↦ true ]

-- Whether the kit may change the session, and the reason where it may not.
unfoldable pub shpool_id_mutation_policy : Unicode → Value → Bool × Option String
unfolding is_generated_id is_legacy_id
shpool_id_mutation_policy u (str raw) =
    if raw =~ ""
    then (false, some "invalid")
    else if any_char u.is_control raw
    then (false, some "control")
    else if ltb max_operational_id_bytes (len raw)
    then (false, some "oversize")
    else if contains_text (u.casefold raw) "template"
    then (false, some "template")
    else if one_of (u.casefold raw) "unmanaged" "control"
    then (false, some "unmanaged")
    else if is_legacy_id raw || is_generated_id raw
    then (true, none)
    else (false, some "unmanaged")
shpool_id_mutation_policy u _ = (false, some "invalid")

-- ASCII, for tests.
abbrev pub ascii : Unicode
ascii = record {
  is_control = λ c. ltb (code c) 32;
  is_space = λ c. code c == 32;
  casefold = λ s. s;
  title = λ s. s;
  repr = λ s. "'" ++ (s ++ "'");
}

cleaned : clean_text ascii (str "  two   words ") 6 ≡ "two wo"
unfolding clean_text string_dec
cleaned = refl

generated : shpool_id_mutation_policy ascii (str "s20260802-101500-4242-2") ≡ (true, none)
unfolding shpool_id_mutation_policy string_dec
generated = refl

unmanaged : shpool_id_mutation_policy ascii (str "scratch") ≡ (false, some "unmanaged")
unfolding shpool_id_mutation_policy string_dec
unmanaged = refl
