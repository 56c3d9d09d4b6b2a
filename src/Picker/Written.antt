-- ===== src/Picker/Written.antt =====
-- lib/sessionkit_tui/rows.py: `parse_marks` on the numbers that state.py writes.
use Prim.Native.Char.{code}
use Prim.Native.String.{◌++◌}
use text.Mathlib.TextLemmas.{nil-append, cons-append, append-nil, append_assoc}
use session_kit.Base.{
  ℕ, ◌≡◌, refl, sym, ap, subst, ◌∙◌, inl, inr, String, true, false, ◌||◌, List, [], ◌∷◌,
  ◌++◌ as ◌⊕◌, none, map, contains, IsDistinct, ◌==◌, ◌=~◌, =~→eq, string_dec, Bool-cases,
  if◌then◌else◌, arith,
}
use session_kit.Common.Text.{all_digits}
use session_kit.Selection.Grammar.{split_at, partition, is_digits}
use session_kit.Picker.Marks.{
  without_spaces, append_new, read_single, read_fragment, read_fragments, parse_marks,
}
use session_kit.Picker.Print.{show, print_marks}
use session_kit.Picker.Digits.{show-int_of}

pub comma-append : (t : String) → "," ++ t ≡ String.◌∷◌ "," t
comma-append t = cons-append "," "" t ∙ ap (λ s. String.◌∷◌ "," s) (nil-append t)

split_at-digits :
    (piece s t : String)
    → all_digits s ≡ true
    → split_at b',' piece (s ++ t) ≡ split_at b',' (piece ++ s) t
unfolding split_at
split_at-digits piece String.[] t h = rw (nil-append t, append-nil piece) refl
split_at-digits piece (String.◌∷◌ c s) t h =
    let other : (code c == b',') ≡ false = ground arith in
    let joined : (piece ++ String.◌∷◌ c "") ++ s ≡ piece ++ String.◌∷◌ c s =
      append_assoc piece (String.◌∷◌ c "") s
      ∙ ap (λ r. piece ++ r) (cons-append c "" s ∙ ap (λ r. String.◌∷◌ c r) (nil-append s)) in
    rw (cons-append c s t, other)
      (split_at-digits (piece ++ String.◌∷◌ c "") s t (ground arith)
        ∙ ap (λ r. split_at b',' r t) joined)

split_at-print : (n : ℕ) (ns : List ℕ) → split_at b',' "" (print_marks (n ∷ ns)) ≡ map show (n ∷ ns)
unfolding print_marks split_at
split_at-print n [] =
    let (_, digits, _) = show-int_of n in
    ap (split_at b',' "") (sym (append-nil (show n)))
    ∙ split_at-digits "" (show n) "" digits
    ∙ ap (λ r. r ∷ []) (nil-append (show n))
split_at-print n (m ∷ ns) =
    let (_, digits, _) = show-int_of n in
    split_at-digits "" (show n) ("," ++ print_marks (m ∷ ns)) digits
    ∙ rw (comma-append (print_marks (m ∷ ns)), nil-append (show n))
        (ap (λ r. show n ∷ r) (split_at-print m ns))

without_spaces-digits :
    (s t : String) → all_digits s ≡ true → without_spaces (s ++ t) ≡ s ++ without_spaces t
unfolding without_spaces
without_spaces-digits String.[] t h = rw (nil-append t, nil-append (without_spaces t)) refl
without_spaces-digits (String.◌∷◌ c s) t h =
    let other : (code c == b' ') ≡ false = ground arith in
    rw (cons-append c s t, other)
      (ap (λ r. String.◌∷◌ c r) (without_spaces-digits s t (ground arith))
        ∙ sym (cons-append c s (without_spaces t)))

without_spaces-print : (ns : List ℕ) → without_spaces (print_marks ns) ≡ print_marks ns
unfolding print_marks without_spaces
without_spaces-print [] = refl
without_spaces-print (n ∷ []) =
    let (_, digits, _) = show-int_of n in
    ap without_spaces (sym (append-nil (show n)))
    ∙ without_spaces-digits (show n) "" digits
    ∙ append-nil (show n)
without_spaces-print (n ∷ m ∷ ns) =
    let (_, digits, _) = show-int_of n in
    without_spaces-digits (show n) ("," ++ print_marks (m ∷ ns)) digits
    ∙ ap (λ r. show n ++ r)
        (ap without_spaces (comma-append (print_marks (m ∷ ns)))
          ∙ ap (λ r. String.◌∷◌ "," r) (without_spaces-print (m ∷ ns))
          ∙ sym (comma-append (print_marks (m ∷ ns))))

partition-digits : (first s : String) → all_digits s ≡ true → partition first s ≡ none
unfolding partition
partition-digits first String.[] h = refl
partition-digits first (String.◌∷◌ c s) h =
    let rest = partition-digits (first ++ String.◌∷◌ c "") s (ground arith) in ground arith

read_fragment-show :
    (n : ℕ) (numbers : List ℕ) (unusable : List String)
    → read_fragment (show n) (numbers, unusable) ≡ (append_new n numbers, unusable)
unfolding read_fragment read_single
read_fragment-show n numbers unusable =
    let (shape, digits, value) = show-int_of n in
    rw (partition-digits "" (show n) digits, read_fragment, shape, value) refl

-- No number of the second list is in the first, or twice in it.
abbrev IsFresh : List ℕ → List ℕ → Type 0
IsFresh acc [] = Unit
IsFresh acc (n ∷ ns) = (contains n acc ≡ false) × IsFresh (acc ⊕ (n ∷ [])) ns

pub append_cons : (acc : List ℕ) (n : ℕ) (ns : List ℕ) → (acc ⊕ (n ∷ [])) ⊕ ns ≡ acc ⊕ (n ∷ ns)
append_cons [] n ns = refl
append_cons (a ∷ acc) n ns = ap (λ l. a ∷ l) (append_cons acc n ns)

pub append_nil : (acc : List ℕ) → acc ⊕ [] ≡ acc
append_nil [] = refl
append_nil (a ∷ acc) = ap (λ l. a ∷ l) (append_nil acc)

no_digits : is_digits "" ≡ true → ⊥
unfolding is_digits
no_digits h = cc

show-not-empty : (n : ℕ) → (show n =~ "") ≡ false
show-not-empty n = let (shape, _, _) = show-int_of n in no_empty (show n) shape
  where
    no_empty : (s : String) → is_digits s ≡ true → (s =~ "") ≡ false
    no_empty s h = elim (Bool-cases (s =~ "")) [
      | inl e ↦
          let empty_digits : is_digits "" ≡ true =
            subst (λ r. is_digits r ≡ true) (=~→eq s "" e) h in
          absurd (no_digits empty_digits)
      | inr e ↦ e
    ]

abbrev pair_with : List String → List ℕ → List ℕ × List String
pair_with bad l = (l, bad)

read_show :
    (acc : List ℕ) (n : ℕ) (bad : List String)
    → contains n acc ≡ false
    → (if show n =~ "" then (acc, bad) else read_fragment (show n) (acc, bad))
      ≡ (acc ⊕ (n ∷ []), bad)
unfolding append_new
read_show acc n bad h = rw (show-not-empty n, read_fragment-show n acc bad, h) refl

read_fragments-show :
    (acc ns : List ℕ) (bad : List String)
    → IsFresh acc ns
    → read_fragments (map show ns) (acc, bad) ≡ (acc ⊕ ns, bad)
unfolding read_fragments
read_fragments-show acc [] bad h = ap (pair_with bad) (sym (append_nil acc))
read_fragments-show acc (n ∷ ns) bad h =
    ap (read_fragments (map show ns)) (read_show acc n bad h.0)
    ∙ read_fragments-show (acc ⊕ (n ∷ [])) ns bad h.1
    ∙ ap (pair_with bad) (append_cons acc n ns)

pub contains-append :
    (m : ℕ) (xs ys : List ℕ) → contains m (xs ⊕ ys) ≡ (contains m xs || contains m ys)
contains-append m [] ys = refl
contains-append m (x ∷ xs) ys = ground (arith, contains-append m xs ys)

IsDistinct-absent :
    (acc : List ℕ) (n : ℕ) (ns : List ℕ) → IsDistinct (acc ⊕ (n ∷ ns)) → contains n acc ≡ false
IsDistinct-absent [] n ns h = refl
IsDistinct-absent (a ∷ acc) n ns h =
    ground (arith, contains-append a acc (n ∷ ns), IsDistinct-absent acc n ns h.1)

IsDistinct-IsFresh : (acc ns : List ℕ) → IsDistinct (acc ⊕ ns) → IsFresh acc ns
IsDistinct-IsFresh acc [] h = tt
IsDistinct-IsFresh acc (n ∷ ns) h = (
  IsDistinct-absent acc n ns h,
  IsDistinct-IsFresh (acc ⊕ (n ∷ [])) ns (subst IsDistinct (sym (append_cons acc n ns)) h),
)

-- Numbers that are all different are read back as they were written, and nothing else is read.
pub parse_marks-print_marks :
    (ns : List ℕ) → IsDistinct ns → parse_marks (print_marks ns) ≡ (ns, [])
unfolding parse_marks read_fragments split_at without_spaces print_marks string_dec
parse_marks-print_marks [] h = refl
parse_marks-print_marks (n ∷ ns) h =
    rw (without_spaces-print (n ∷ ns), split_at-print n ns)
      (read_fragments-show [] (n ∷ ns) [] (IsDistinct-IsFresh [] (n ∷ ns) h))
