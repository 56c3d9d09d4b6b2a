-- ===== src/Selection/Chosen.antt =====
-- lib/sessionkit_inventory/common.py: which numbers `parse_number_selection` returns.
use session_kit.Base.{
  ℕ, ◌+◌, ◌≤◌, ◌≡◌, refl, sym, ap, ◌∙◌, inl, inr, String, Bool, false, ◌||◌, ◌&&◌, List, [], ◌∷◌,
  none, some, ltb, leb, subst, ◌==◌, ◌=~◌, any, contains, All, All-map, All-any, Bool-cases,
  if◌then◌else◌, arith,
}
use session_kit.Base.Result.{bind-ok, Equates}
use session_kit.Json.{Value, str}
use session_kit.Common.Text.{Unicode, split}
use session_kit.Selection.Grammar.{
  Error, out_of_bounds, ok, err, ok-injective, partition, int_of, range_of, add_range, add_part,
  add_parts, add_chunk, add_chunks, checked, split_at, stripped, select, parse_number_selection,
}
use session_kit.Selection.Set.{
  IsAscending, contains-add_range, add_range-IsAscending, All-contains, IsAscending-unique,
}

-- The numbers that one word names, by their description.
abbrev pub names : ℕ → String → Bool
names m part = elim (partition "" part) [
  | some (first, last) ↦ leb (int_of 0 first) m && leb m (int_of 0 last)
  | none ↦ m == int_of 0 part
]

abbrev pub names_in : Unicode → List String → ℕ → Bool
names_in u [] m = false
names_in u (chunk ∷ chunks) m = any (names m) (split u "" chunk) || names_in u chunks m

-- The numbers that a text names: none, all up to the count, or those of its words.
abbrev pub named : Unicode → ℕ → String → ℕ → Bool
named u count text m =
    if text =~ ""
    then false
    else if text =~ "a" || text =~ "all"
    then leb 1 m && leb m count
    else names_in u (split_at b',' "" text) m

range_of-names :
    (part : String) (r : ℕ × ℕ) (m : ℕ)
    → range_of part ≡ ok r
    → names m part ≡ (leb r.0 m && ltb m (r.0 + r.1))
unfolding range_of
range_of-names part r m h = ground arith

-- What a step adds to the numbers picked so far, which stay ascending.
abbrev pub Adds : (ℕ → Bool) → List ℕ → List ℕ → Type 0
Adds test p q =
    ((m : ℕ) → contains m q ≡ (test m || contains m p)) × (IsAscending p → IsAscending q)

Adds-append :
    (s t : ℕ → Bool) (p q r : List ℕ) → Adds s p q → Adds t q r → Adds (λ m. s m || t m) p r
Adds-append s t p q r a b = (λ m. ground (arith, a.0 m, b.0 m), λ h. b.1 (a.1 h))

add_part-Adds :
    (part : String) (p q : List ℕ) → add_part part p ≡ ok q → Adds (λ m. names m part) p q
unfolding add_part
add_part-Adds part p q h =
    let (r, e, f) = bind-ok (range_of part) h in
    subst (Adds (λ m. names m part) p) (ok-injective f) (
      λ m.
          contains-add_range m r.0 r.1 p
          ∙ ap (λ b. b || contains m p) (sym (range_of-names part r m e)),
      add_range-IsAscending r.0 r.1 p,
    )

add_parts-Adds :
    (parts : List String) (p q : List ℕ)
    → add_parts parts p ≡ ok q
    → Adds (λ m. any (names m) parts) p q
unfolding add_parts
add_parts-Adds [] p q h = subst (Adds (λ m. false) p) (ok-injective h) (λ m. refl, λ a. a)
add_parts-Adds (part ∷ parts) p q h =
    let (r, e, f) = bind-ok (add_part part p) h in
    Adds-append _ _ p r q (add_part-Adds part p r e) (add_parts-Adds parts r q f)

add_chunk-Adds :
    (parts : List String) (p q : List ℕ)
    → add_chunk parts p ≡ ok q
    → Adds (λ m. any (names m) parts) p q
unfolding add_chunk
add_chunk-Adds [] p q h = cc
add_chunk-Adds (part ∷ parts) p q h = add_parts-Adds (part ∷ parts) p q h

pub add_chunks-Adds :
    (u : Unicode) (chunks : List String) (p q : List ℕ)
    → add_chunks u chunks p ≡ ok q
    → Adds (names_in u chunks) p q
unfolding add_chunks
add_chunks-Adds u [] p q h = subst (Adds (λ m. false) p) (ok-injective h) (λ m. refl, λ a. a)
add_chunks-Adds u (chunk ∷ chunks) p q h =
    let (r, e, f) = bind-ok (add_chunk (split u "" chunk) p) h in
    Adds-append _ _ p r q (add_chunk-Adds (split u "" chunk) p r e) (add_chunks-Adds u chunks r q f)

abbrev pub outside : ℕ → ℕ → Bool
outside count n = ltb n 1 || ltb count n

abbrev Raises : Error → List ℕ → Type 0
Raises e ys = Equates Error (err e) (ok ys)

-- The test at the end changes nothing, and bounds what it lets through.
pub checked-ok :
    (count : ℕ) (xs ys : List ℕ)
    → checked count xs ≡ ok ys
    → (xs ≡ ys) × All (λ n. (1 ≤ n) × (n ≤ count)) ys
unfolding checked
checked-ok count [] ys h = cc
checked-ok count (x ∷ xs) ys h = elim (Bool-cases (any (outside count) (x ∷ xs))) [
  | inl e ↦ let no_result : Raises out_of_bounds ys = rw e at h in cc
  | inr e ↦
      let same : x ∷ xs ≡ ys = ok-injective (rw e at h) in
      (
        same,
        subst (All (λ n. (1 ≤ n) × (n ≤ count))) same
            (All-map _ (x ∷ xs) (λ n f. ground arith) (All-any (outside count) (x ∷ xs) e)),
      )
]

abbrev pub Picks : Unicode → ℕ → String → List ℕ → Type 0
Picks u count text xs = Adds (named u count text) [] xs × All (λ n. (1 ≤ n) × (n ≤ count)) xs

pub select-Picks :
    (u : Unicode) (count : ℕ) (text : String) (xs : List ℕ)
    → select u count text ≡ ok xs
    → Picks u count text xs
unfolding select
select-Picks u count text xs h = elim (Bool-cases (text =~ "")) [
  | inl e ↦ subst (Picks u count text) (ok-injective (rw e at h)) ((λ m. rw e refl, λ a. tt), tt)
  | inr e ↦ elim (Bool-cases (text =~ "a" || text =~ "all")) [
    | inl f ↦ subst (Picks u count text) (ok-injective (rw (e, f) at h)) (
      (
        λ m. rw (e, f) (contains-add_range m 1 count [] ∙ ground arith),
        add_range-IsAscending 1 count [],
      ),
      All-contains _ (add_range 1 count [])
          (λ m c. let d = sym (contains-add_range m 1 count []) ∙ c in ground arith),
    )
    | inr f ↦
        let (ys, g, k) = bind-ok (add_chunks u (split_at b',' "" text) []) (rw (e, f) at h) in
        let (same, bounded) = checked-ok count ys xs k in
        let adds = add_chunks-Adds u (split_at b',' "" text) [] ys g in
        (
          subst (λ zs. Adds (named u count text) [] zs) same (λ m. rw (e, f) (adds.0 m), adds.1),
          bounded,
        )
  ]
]

-- An answer that is accepted gives numbers from one to the count, in ascending order and each once.
pub parse_number_selection-IsAscending :
    (u : Unicode) (answer : Value) (count : ℕ) (xs : List ℕ)
    → parse_number_selection u answer count ≡ ok xs
    → IsAscending xs × All (λ n. (1 ≤ n) × (n ≤ count)) xs
unfolding parse_number_selection
parse_number_selection-IsAscending u (str answer) count xs h =
    let picks = select-Picks u count (stripped u answer) xs h in (picks.0.1 tt, picks.1)
parse_number_selection-IsAscending u _ count xs h = cc

-- An answer that is accepted gives exactly the numbers that its text names.
pub parse_number_selection-named :
    (u : Unicode) (answer : String) (count : ℕ) (xs : List ℕ)
    → parse_number_selection u (str answer) count ≡ ok xs
    → (m : ℕ) → contains m xs ≡ named u count (stripped u answer) m
unfolding parse_number_selection
parse_number_selection-named u answer count xs h m =
    let (picked, _) = (select-Picks u count (stripped u answer) xs h).0 in ground (arith, picked m)

-- Two answers that are accepted and whose texts name the same numbers, in whatever order, with
-- whatever ranges and repetitions, give the same result.
pub parse_number_selection_unique :
    (u : Unicode) (one other : String) (count : ℕ) (xs ys : List ℕ)
    → parse_number_selection u (str one) count ≡ ok xs
    → parse_number_selection u (str other) count ≡ ok ys
    → ((m : ℕ) → named u count (stripped u one) m ≡ named u count (stripped u other) m)
    → xs ≡ ys
parse_number_selection_unique u one other count xs ys h k same =
    IsAscending-unique xs ys (parse_number_selection-IsAscending u (str one) count xs h).0
      (parse_number_selection-IsAscending u (str other) count ys k).0
      (λ m.
        parse_number_selection-named u one count xs h m
        ∙ same m
        ∙ sym (parse_number_selection-named u other count ys k m))
