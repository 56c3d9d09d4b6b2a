-- ===== src/Selection/Accepts.antt =====
-- lib/sessionkit_inventory/common.py: which answers `parse_number_selection` accepts.
use Prim.Native.Char.{code}
use Prim.Native.String.{◌++◌}
use session_kit.Base.{
  ℕ, suc, ◌-◌, ◌≤◌, ◌≡◌, refl, sym, subst, ◌∙◌, inl, inr, ◌↔◌, String, Bool, true, false, ◌||◌,
  ◌&&◌, List, [], ◌∷◌, none, some, ltb, leb, ◌==◌, ◌=~◌, any, contains, any-All, all_of, Bool-cases,
  Option-cases, arith,
}
use session_kit.Base.Result.{bind-ok}
use session_kit.Json.{str}
use session_kit.Common.Text.{Unicode, split}
use session_kit.Selection.Grammar.{
  ok, ◌>>=◌, max_selection_span, partition, is_digits, int_of, range_of, add_range, add_part,
  add_parts, add_chunk, add_chunks, checked, split_at, stripped, select, parse_number_selection,
}
use session_kit.Selection.Set.{All-contains, contains-All}
use session_kit.Selection.Chosen.{names, names_in, outside, add_chunks-Adds, checked-ok}

-- A number from one to the count, or a range of them that is not too wide.
abbrev pub is_word : ℕ → String → Bool
is_word count part = elim (partition "" part) [
  | some (first, last) ↦ all_of (
      is_digits first
      ∷ is_digits last
      ∷ leb 1 (int_of 0 first)
      ∷ leb (int_of 0 first) (int_of 0 last)
      ∷ leb (int_of 0 last) count
      ∷ ltb (int_of 0 last - int_of 0 first) max_selection_span
      ∷ [])
  | none ↦ all_of (is_digits part ∷ leb 1 (int_of 0 part) ∷ leb (int_of 0 part) count ∷ [])
]

abbrev all_words : ℕ → List String → Bool
all_words count [] = true
all_words count (w ∷ ws) = is_word count w && all_words count ws

-- One or more words.
abbrev is_entry : ℕ → List String → Bool
is_entry count [] = false
is_entry count (w ∷ ws) = is_word count w && all_words count ws

abbrev pub all_entries : Unicode → ℕ → List String → Bool
all_entries u count [] = true
all_entries u count (c ∷ cs) = is_entry count (split u "" c) && all_entries u count cs

-- The answers of the grammar: nothing, `a` or `all`, or entries between commas.
abbrev pub is_answer : Unicode → ℕ → String → Bool
is_answer u count text =
    text =~ "" || ((text =~ "a" || text =~ "all") || all_entries u count (split_at b',' "" text))

InRange : ℕ → (ℕ → Bool) → Type 0
InRange count test = (m : ℕ) → test m ≡ true → (1 ≤ m) × (m ≤ count)

module _ (count : ℕ) where
  range_of-is_word :
      (w : String) (r : ℕ × ℕ)
      → range_of w ≡ ok r
      → InRange count (λ m. names m w)
      → is_word count w ≡ true
  unfolding range_of InRange
  range_of-is_word w r h b = elim (Option-cases (partition "" w)) [
    | inl e ↦ let (one, two) = b (int_of 0 w) (rw (e, names) (ground arith)) in ground arith
    | inr ((f, l), e) ↦
        let (one, _) = b (int_of 0 f) (rw (e, names) (ground arith)) in
        let (_, two) = b (int_of 0 l) (rw (e, names) (ground arith)) in ground arith
  ]

  is_word-range_of :
      (w : String)
      → is_word count w ≡ true
      → ((r : ℕ × ℕ) × (range_of w ≡ ok r)) × InRange count (λ m. names m w)
  unfolding range_of InRange
  is_word-range_of w h = elim (Option-cases (partition "" w)) [
    | inl e ↦ (((int_of 0 w, 1), ground arith), λ m n. ground arith)
    | inr ((f, l), e) ↦
        (((int_of 0 f, suc (int_of 0 l - int_of 0 f)), ground arith), λ m n. ground arith)
  ]

  is_word-named : (w : String) → is_word count w ≡ true → (m : ℕ) × (names m w ≡ true)
  is_word-named w h = elim (Option-cases (partition "" w)) [
    | inl e ↦ (int_of 0 w, ground arith)
    | inr ((f, l), e) ↦ (int_of 0 f, ground arith)
  ]

  AllRange : List String → Type 0
  AllRange ws = InRange count (λ m. any (names m) ws)

  add_parts-all_words :
      (ws : List String) (p q : List ℕ)
      → add_parts ws p ≡ ok q
      → AllRange ws
      → all_words count ws ≡ true
  unfolding add_parts add_part AllRange InRange
  add_parts-all_words [] p q h b = refl
  add_parts-all_words (w ∷ ws) p q h b =
      let (t, e, f) = bind-ok (add_part w p) h in
      let (r, g, _) = bind-ok (range_of w) e in
      let head = range_of-is_word w r g (λ m n. b m (rw n refl)) in
      let tail = add_parts-all_words ws t q f (λ m n. b m (ground arith)) in ground arith

  all_words-add_parts :
      (ws : List String) (p : List ℕ)
      → all_words count ws ≡ true
      → ((q : List ℕ) × (add_parts ws p ≡ ok q)) × AllRange ws
  unfolding add_parts add_part AllRange InRange
  all_words-add_parts [] p h = ((p, refl), λ m n. cc)
  all_words-add_parts (w ∷ ws) p h =
      let ((r, e), b) = is_word-range_of w (ground arith) in
      let ((q, f), c) = all_words-add_parts ws (add_range r.0 r.1 p) (ground arith) in
      (
        (q, rw e f),
        λ m n. elim (Bool-cases (names m w)) [ inl i ↦ b m i | inr o ↦ c m (rw o at n) ],
      )

  add_chunk-is_entry :
      (ws : List String) (p q : List ℕ)
      → add_chunk ws p ≡ ok q
      → AllRange ws
      → is_entry count ws ≡ true
  unfolding add_chunk
  add_chunk-is_entry [] p q h b = cc
  add_chunk-is_entry (w ∷ ws) p q h b = add_parts-all_words (w ∷ ws) p q h b

  add_chunks-all_entries :
      (u : Unicode) (cs : List String) (p q : List ℕ)
      → add_chunks u cs p ≡ ok q
      → InRange count (names_in u cs)
      → all_entries u count cs ≡ true
  unfolding add_chunks InRange AllRange
  add_chunks-all_entries u [] p q h b = refl
  add_chunks-all_entries u (c ∷ cs) p q h b =
      let (t, e, f) = bind-ok (add_chunk (split u "" c) p) h in
      let head = add_chunk-is_entry (split u "" c) p t e (λ m n. b m (rw n refl)) in
      let tail = add_chunks-all_entries u cs t q f (λ m n. b m (ground arith)) in ground arith

  is_entry-add_chunk :
      (ws : List String) (p : List ℕ)
      → is_entry count ws ≡ true
      → (((q : List ℕ) × (add_chunk ws p ≡ ok q)) × AllRange ws)
        × ((m : ℕ) × (any (names m) ws ≡ true))
  unfolding add_chunk
  is_entry-add_chunk [] p h = cc
  is_entry-add_chunk (w ∷ ws) p h =
      let (m, n) = is_word-named w (ground arith) in
      (all_words-add_parts (w ∷ ws) p h, (m, rw n refl))

  all_entries-add_chunks :
      (u : Unicode) (cs : List String) (p : List ℕ)
      → all_entries u count cs ≡ true
      → ((q : List ℕ) × (add_chunks u cs p ≡ ok q)) × InRange count (names_in u cs)
  unfolding add_chunks InRange AllRange
  all_entries-add_chunks u [] p h = ((p, refl), λ m n. cc)
  all_entries-add_chunks u (c ∷ cs) p h =
      let (((t, e), b), _) = is_entry-add_chunk (split u "" c) p (ground arith) in
      let ((q, f), d) = all_entries-add_chunks u cs t (ground arith) in
      (
        (q, rw e f),
        λ m n. elim (Bool-cases (any (names m) (split u "" c))) [
          | inl i ↦ b m i
          | inr o ↦ d m (rw o at n)
        ],
      )

  checked-accepts :
      (m : ℕ) (xs : List ℕ)
      → contains m xs ≡ true
      → InRange count (λ n. contains n xs)
      → checked count xs ≡ ok xs
  unfolding checked InRange
  checked-accepts m [] c b = cc
  checked-accepts m (x ∷ xs) c b =
      let inside : any (outside count) (x ∷ xs) ≡ false =
        any-All (outside count) (x ∷ xs)
          (All-contains _ (x ∷ xs) (λ n i. let (one, two) = b n i in ground arith)) in
      rw inside refl

-- There is a first entry, if only an empty one.
split_at-cons :
    (sep : ℕ) (piece s : String)
    → (c : String) × (cs : List String) × (split_at sep piece s ≡ c ∷ cs)
unfolding split_at
split_at-cons sep piece String.[] = (piece, [], refl)
split_at-cons sep piece (String.◌∷◌ c s) = elim (Bool-cases (code c == sep)) [
  | inl e ↦ (piece, split_at sep "" s, rw e refl)
  | inr e ↦ rw e (split_at-cons sep (piece ++ String.◌∷◌ c "") s)
]

all_entries-some :
    (u : Unicode) (count : ℕ) (cs : List String) (c : String) (rest : List String)
    → cs ≡ c ∷ rest
    → all_entries u count cs ≡ true
    → (m : ℕ) × (names_in u cs m ≡ true)
all_entries-some u count [] c rest e h = cc
all_entries-some u count (d ∷ ds) c rest e h =
    let (_, (m, n)) = is_entry-add_chunk count (split u "" d) [] (ground arith) in (m, rw n refl)

entries_iff :
    (u : Unicode) (count : ℕ) (text : String)
    → ((xs : List ℕ) × ((add_chunks u (split_at b',' "" text) [] >>= checked count) ≡ ok xs))
      ↔ (all_entries u count (split_at b',' "" text) ≡ true)
unfolding InRange
entries_iff u count text = (
  λ (xs, h).
      let (ys, e, f) = bind-ok (add_chunks u (split_at b',' "" text) []) h in
      let (same, bounded) = checked-ok count ys xs f in
      let (adds, _) = add_chunks-Adds u (split_at b',' "" text) [] ys e in
      add_chunks-all_entries count u (split_at b',' "" text) [] ys e (λ m n.
        contains-All (λ k. (1 ≤ k) × (k ≤ count)) m xs bounded
          (subst (λ zs. contains m zs ≡ true) same (adds m ∙ rw n refl))),
  λ h.
      let ((ys, e), b) = all_entries-add_chunks count u (split_at b',' "" text) [] h in
      let (adds, _) = add_chunks-Adds u (split_at b',' "" text) [] ys e in
      let (c, cs, k) = split_at-cons b',' "" text in
      let (m, n) = all_entries-some u count (split_at b',' "" text) c cs k h in
      (
        ys,
        rw e (
            checked-accepts count m ys (adds m ∙ rw n refl)
              (λ i j. b i (let a = sym (adds i) ∙ j in ground arith))),
      ),
)

-- An answer is accepted if and only if it is of the grammar: empty, `a`, `all`, or entries between
-- commas, each of one or more words that are numbers, or ranges, from one to the count.
pub parse_number_selection-is_answer :
    (u : Unicode) (answer : String) (count : ℕ)
    → ((xs : List ℕ) × (parse_number_selection u (str answer) count ≡ ok xs))
      ↔ (is_answer u count (stripped u answer) ≡ true)
unfolding parse_number_selection select
parse_number_selection-is_answer u answer count = elim (Bool-cases (stripped u answer =~ "")) [
  | inl e ↦ (λ h. rw e refl, λ h. ([], rw e refl))
  | inr e ↦ elim (Bool-cases (stripped u answer =~ "a" || stripped u answer =~ "all")) [
    | inl f ↦ (λ h. rw (e, f) refl, λ h. (add_range 1 count [], rw (e, f) refl))
    | inr f ↦ rw (e, f) (entries_iff u count (stripped u answer))
  ]
]
