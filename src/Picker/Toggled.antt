-- ===== src/Picker/Toggled.antt =====
-- lib/sessionkit_tui/state.py: `toggle_mark`.
use session_kit.Base.{
  ℕ, zero, suc, ◌-◌, ◌≤◌, ◌≡◌, refl, sym, ap, subst, ◌∙◌, string_dec, ◌⊎◌, inl, inr, String, Bool,
  true, false, not, ◌&&◌, List, [], ◌∷◌, ◌++◌ as ◌⊕◌, contains, IsDistinct, length, keep_if, leb,
  ◌==◌, ◌=~◌, Bool-cases, Option-cases, if◌then◌else◌, arith,
}
use session_kit.Common.Text.{Unicode}
use session_kit.Selection.Grammar.{split_at, partition, is_digits, int_of}
use session_kit.Picker.Marks.{
  append_new, append_up, append_down, append_range, read_single, read_fragment, read_fragments,
  parse_marks, without_spaces, is_filter,
}
use session_kit.Picker.Written.{contains-append, parse_marks-print_marks}
use session_kit.Picker.State.{Picker}
use session_kit.Picker.Events.{toggled, marks_text, noted, toggle_mark}

snoc-IsDistinct :
    (n : ℕ) (ns : List ℕ) → contains n ns ≡ false → IsDistinct ns → IsDistinct (ns ⊕ (n ∷ []))
snoc-IsDistinct n [] e h = (refl, tt)
snoc-IsDistinct n (m ∷ ns) e h =
    (ground (arith, contains-append m ns (n ∷ [])), snoc-IsDistinct n ns (ground arith) h.1)

append_new-IsDistinct : (n : ℕ) (ns : List ℕ) → IsDistinct ns → IsDistinct (append_new n ns)
unfolding append_new
append_new-IsDistinct n ns h = elim (Bool-cases (contains n ns)) [
  | inl e ↦ rw (e, IsDistinct) h
  | inr e ↦ rw (e, IsDistinct) (snoc-IsDistinct n ns e h)
]

append_up-IsDistinct : (m k : ℕ) (ns : List ℕ) → IsDistinct ns → IsDistinct (append_up m k ns)
unfolding append_up
append_up-IsDistinct m zero ns h = h
append_up-IsDistinct m (suc k) ns h =
    append_up-IsDistinct (suc m) k (append_new m ns) (append_new-IsDistinct m ns h)

append_down-IsDistinct : (m k : ℕ) (ns : List ℕ) → IsDistinct ns → IsDistinct (append_down m k ns)
unfolding append_down
append_down-IsDistinct m zero ns h = h
append_down-IsDistinct m (suc k) ns h =
    append_down-IsDistinct (m - 1) k (append_new m ns) (append_new-IsDistinct m ns h)

either :
    (b : Bool) (xs ys : List ℕ) → IsDistinct xs → IsDistinct ys → IsDistinct (if b then xs else ys)
either true xs ys hx hy = hx
either false xs ys hx hy = hy

append_range-IsDistinct : (m k : ℕ) (ns : List ℕ) → IsDistinct ns → IsDistinct (append_range m k ns)
unfolding append_range
append_range-IsDistinct m k ns h =
    either (leb m k) _ _ (append_up-IsDistinct m _ ns h) (append_down-IsDistinct m _ ns h)

read_single-IsDistinct :
    (f : String) (p : List ℕ × List String) → IsDistinct p.0 → IsDistinct (read_single f p).0
unfolding read_single
read_single-IsDistinct f (ns, bad) h = elim (Bool-cases (is_digits f)) [
  | inl e ↦ rw (e, IsDistinct) (append_new-IsDistinct (int_of 0 f) ns h)
  | inr e ↦ rw (e, IsDistinct) h
]

read_fragment-IsDistinct :
    (f : String) (p : List ℕ × List String) → IsDistinct p.0 → IsDistinct (read_fragment f p).0
unfolding read_fragment
read_fragment-IsDistinct f p h = elim (Option-cases (partition "" f)) [
  | inl e ↦ rw (e, read_fragment) (read_single-IsDistinct f p h)
  | inr ((a, b), e) ↦ elim (Bool-cases (is_digits a && is_digits b)) [
    | inl d ↦ rw (e, read_fragment, d) (append_range-IsDistinct (int_of 0 a) (int_of 0 b) p.0 h)
    | inr d ↦ rw (e, read_fragment, d) (read_single-IsDistinct f p h)
  ]
]

skipped :
    (b : Bool) (p q : List ℕ × List String)
    → IsDistinct p.0
    → IsDistinct q.0
    → IsDistinct (if b then p else q).0
skipped true p q h k = h
skipped false p q h k = k

read_fragments-IsDistinct :
    (fs : List String) (p : List ℕ × List String)
    → IsDistinct p.0
    → IsDistinct (read_fragments fs p).0
unfolding read_fragments
read_fragments-IsDistinct [] p h = h
read_fragments-IsDistinct (f ∷ fs) p h =
    read_fragments-IsDistinct fs (if f =~ "" then p else read_fragment f p)
      (skipped (f =~ "") p (read_fragment f p) h (read_fragment-IsDistinct f p h))

-- The numbers that are read are all different.
pub parse_marks-IsDistinct : (text : String) → IsDistinct (parse_marks text).0
unfolding parse_marks
parse_marks-IsDistinct text =
    read_fragments-IsDistinct (split_at b',' "" (without_spaces text)) ([], []) tt

-- The other numbers.
abbrev pub others : ℕ → List ℕ → List ℕ
others n ns = keep_if (λ v. not (v == n)) ns

others-absent : (n : ℕ) (ns : List ℕ) → contains n ns ≡ false → others n ns ≡ ns
others-absent n [] e = refl
others-absent n (m ∷ ns) e =
    let rest = others-absent n ns (ground arith) in
    let other : (m == n) ≡ false = ground arith in rw other (ap (λ l. m ∷ l) rest)

contains-others : (a n : ℕ) (ns : List ℕ) → contains a ns ≡ false → contains a (others n ns) ≡ false
contains-others a n [] e = refl
contains-others a n (m ∷ ns) e = ground (arith, contains-others a n ns (ground arith))

others-IsDistinct : (n : ℕ) (ns : List ℕ) → IsDistinct ns → IsDistinct (others n ns)
others-IsDistinct n [] h = tt
others-IsDistinct n (m ∷ ns) h = elim (Bool-cases (m == n)) [
  | inl e ↦ rw (e, IsDistinct) (others-IsDistinct n ns h.1)
  | inr e ↦ rw (e, IsDistinct) (contains-others m n ns h.0, others-IsDistinct n ns h.1)
]

length-others : (n : ℕ) (ns : List ℕ) → length (others n ns) ≤ length ns
length-others n [] = omega arith
length-others n (m ∷ ns) = ground (arith, length-others n ns)

-- A number that is in the list shortens it.
length-others-present :
    (n : ℕ) (ns : List ℕ) → contains n ns ≡ true → suc (length (others n ns)) ≤ length ns
length-others-present n [] e = absurd (ground arith)
length-others-present n (m ∷ ns) e = elim (Bool-cases (m == n)) [
  | inl f ↦ ground (arith, length-others n ns)
  | inr f ↦ ground (arith, length-others-present n ns (ground arith))
]

toggled-absent : (n : ℕ) (ns : List ℕ) → contains n ns ≡ false → toggled n ns ≡ ns ⊕ (n ∷ [])
unfolding toggled
toggled-absent n ns e = rw (others-absent n ns e, same_length (length ns)) refl
  where
    same_length : (k : ℕ) → (k == k) ≡ true
    same_length k = ground arith

toggled-present : (n : ℕ) (ns : List ℕ) → contains n ns ≡ true → toggled n ns ≡ others n ns
unfolding toggled
toggled-present n ns e = ground (arith, length-others-present n ns e)

toggled-IsDistinct : (n : ℕ) (ns : List ℕ) → IsDistinct ns → IsDistinct (toggled n ns)
toggled-IsDistinct n ns h = elim (Bool-cases (contains n ns)) [
  | inl e ↦ rw (toggled-present n ns e) (others-IsDistinct n ns h)
  | inr e ↦ rw (toggled-absent n ns e) (snoc-IsDistinct n ns e h)
]

-- `ns` are the numbers that are typed: none where a filter is, and else those that the text is read
-- as.
abbrev pub Typed : Picker → List ℕ → Type 0
Typed p ns =
    ((is_filter p.input_text ≡ true) × (ns ≡ []))
    ⊎ ((is_filter p.input_text ≡ false) × (ns ≡ (parse_marks p.input_text).0))

nothing_typed : (parse_marks "").0 ≡ []
unfolding parse_marks read_fragments without_spaces split_at string_dec
nothing_typed = refl

Typed-marks_text :
    (p : Picker) (ns : List ℕ) → Typed p ns → (parse_marks (marks_text p.input_text)).0 ≡ ns
Typed-marks_text p ns (inl (f, e)) = rw f (nothing_typed ∙ sym e)
Typed-marks_text p ns (inr (f, e)) = rw f (sym e)

module _ (u : Unicode) (n : ℕ) where
  written_toggled :
      (now : ℕ) (p : Picker) (ns : List ℕ)
      → Typed p ns
      → parse_marks (toggle_mark u n now p).input_text ≡ (toggled n ns, [])
  unfolding toggle_mark noted
  written_toggled now p ns typed =
      let same = Typed-marks_text p ns typed in
      let distinct : IsDistinct ns =
        subst IsDistinct same (parse_marks-IsDistinct (marks_text p.input_text)) in
      rw same (parse_marks-print_marks (toggled n ns) (toggled-IsDistinct n ns distinct))

  -- Toggling a number writes numbers that are read back with no fragment left over: where it is one
  -- of those that are typed, the others, in their order, and else the typed ones with it at their
  -- end. A filter that is typed counts as no numbers.
  pub parse_marks-toggle_mark :
      (now : ℕ) (p : Picker) (ns : List ℕ)
      → Typed p ns
      → (contains n ns ≡ true → parse_marks (toggle_mark u n now p).input_text ≡ (others n ns, []))
        × (contains n ns ≡ false
            → parse_marks (toggle_mark u n now p).input_text ≡ (ns ⊕ (n ∷ []), []))
  parse_marks-toggle_mark now p ns typed = (
    λ e. written_toggled now p ns typed ∙ ap (λ l. (l, [])) (toggled-present n ns e),
    λ e. written_toggled now p ns typed ∙ ap (λ l. (l, [])) (toggled-absent n ns e),
  )
