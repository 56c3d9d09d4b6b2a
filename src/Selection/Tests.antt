-- ===== src/Selection/Tests.antt =====
-- lib/sessionkit_inventory/common.py: `parse_number_selection` on concrete answers.
use session_kit.Base.{
  ℕ, ◌≡◌, refl, sym, ◌∙◌, ◌↔◌, ◌≤◌, String, true, List, [], ◌∷◌, All, contains, string_dec,
}
use session_kit.Json.{str}
use session_kit.Common.Text.{ascii}
use session_kit.Selection.Grammar.{
  Result, ok, err, grammar, range_too_wide, out_of_bounds, split_at, partition, is_digits, int_of,
  add, add_range, range_of, add_part, add_parts, add_chunk, add_chunks, checked, strip_left,
  strip_right, stripped, select, parse_number_selection,
}
use session_kit.Selection.Set.{IsAscending}
use session_kit.Selection.Chosen.{
  named, parse_number_selection-IsAscending, parse_number_selection-named,
  parse_number_selection_unique,
}
use session_kit.Selection.Accepts.{is_answer, parse_number_selection-is_answer}

abbrev parsed : String → Result (List ℕ)
parsed s = parse_number_selection ascii (str s) 6

abbrev one_to_three : List ℕ
one_to_three = 1 ∷ 2 ∷ 3 ∷ []

mixed : parsed " 3, 1-2 2 " ≡ ok one_to_three
unfolding parse_number_selection select stripped strip_left strip_right split_at add_chunks
    add_chunk add_parts add_part range_of partition is_digits int_of add_range add checked
    string_dec
mixed = refl

plain : parsed "2,1,3" ≡ ok one_to_three
unfolding parse_number_selection select stripped strip_left strip_right split_at add_chunks
    add_chunk add_parts add_part range_of partition is_digits int_of add_range add checked
    string_dec
plain = refl

nothing : parsed "  " ≡ ok []
unfolding parse_number_selection select stripped strip_left strip_right string_dec
nothing = refl

everything : parsed "all" ≡ ok (1 ∷ 2 ∷ 3 ∷ 4 ∷ 5 ∷ 6 ∷ [])
unfolding parse_number_selection select stripped strip_left strip_right add_range add string_dec
everything = refl

too_wide : parsed "1-99999999" ≡ err range_too_wide
unfolding parse_number_selection select stripped strip_left strip_right split_at add_chunks
    add_chunk add_parts add_part range_of partition is_digits int_of string_dec
too_wide = refl

beyond : parsed "7" ≡ err out_of_bounds
unfolding parse_number_selection select stripped strip_left strip_right split_at add_chunks
    add_chunk add_parts add_part range_of partition is_digits int_of add_range add checked
    string_dec
beyond = refl

empty_entry : parsed "1,,2" ≡ err grammar
unfolding parse_number_selection select stripped strip_left strip_right split_at add_chunks
    add_chunk add_parts add_part range_of partition is_digits int_of add_range add checked
    string_dec
empty_entry = refl

parse_number_selection-IsAscending_example :
    IsAscending one_to_three × All (λ n. (1 ≤ n) × (n ≤ 6)) one_to_three
parse_number_selection-IsAscending_example =
    parse_number_selection-IsAscending ascii (str " 3, 1-2 2 ") 6 one_to_three mixed

parse_number_selection-named_example :
    contains 2 one_to_three ≡ named ascii 6 (stripped ascii " 3, 1-2 2 ") 2
parse_number_selection-named_example =
    parse_number_selection-named ascii " 3, 1-2 2 " 6 one_to_three mixed 2

parse_number_selection_unique_example : one_to_three ≡ one_to_three
parse_number_selection_unique_example =
    parse_number_selection_unique ascii " 3, 1-2 2 " "2,1,3" 6 one_to_three one_to_three mixed plain
      (λ m.
        sym (parse_number_selection-named ascii " 3, 1-2 2 " 6 one_to_three mixed m)
        ∙ parse_number_selection-named ascii "2,1,3" 6 one_to_three plain m)

parse_number_selection-is_answer_example :
    ((xs : List ℕ) × (parsed " 3, 1-2 2 " ≡ ok xs))
    ↔ (is_answer ascii 6 (stripped ascii " 3, 1-2 2 ") ≡ true)
parse_number_selection-is_answer_example = parse_number_selection-is_answer ascii " 3, 1-2 2 " 6
