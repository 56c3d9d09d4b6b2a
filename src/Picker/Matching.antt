-- ===== src/Picker/Matching.antt =====
-- lib/sessionkit_tui/rows.py: `matches`, the loose matching of a filter.
use Prim.Native.Char.{Char, code}
use session_kit.Base.{
  ◌≡◌, refl, sym, subst, ◌⊎◌, inl, inr, ◌↔◌, String, true, none, some, ◌==◌, Bool-cases,
  Option-cases, arith,
}
use session_kit.Common.Text.{Unicode}
use session_kit.Picker.Marks.{after, matches_from, matches, without_spaces}

-- The characters of the first text stand in the second, in their order, with any others between.
abbrev pub IsInside : String → String → Type 0
IsInside String.[] t = Unit
IsInside (String.◌∷◌ c s) String.[] = ⊥
IsInside (String.◌∷◌ c s) (String.◌∷◌ d t) =
    ((code c ≡ code d) × IsInside s t) ⊎ IsInside (String.◌∷◌ c s) t

later : (s : String) (d : Char) (t : String) → IsInside s t → IsInside s (String.◌∷◌ d t)
later String.[] d t h = tt
later (String.◌∷◌ c s) d t h = inr h

rest-IsInside : (c : Char) (s t : String) → IsInside (String.◌∷◌ c s) t → IsInside s t
rest-IsInside c s String.[] h = absurd h
rest-IsInside c s (String.◌∷◌ d t) (inl (_, h)) = later s d t h
rest-IsInside c s (String.◌∷◌ d t) (inr h) = later s d t (rest-IsInside c s t h)

after-some :
    (c : Char) (s hay rest : String)
    → after c hay ≡ some rest
    → IsInside s rest ↔ IsInside (String.◌∷◌ c s) hay
unfolding after
after-some c s String.[] rest e = cc
after-some c s (String.◌∷◌ d t) rest e = elim (Bool-cases (code c == code d)) [
  | inl q ↦
      let same : t ≡ rest = ground arith in
      let codes : code c ≡ code d = ground arith in
      (
        λ h. inl (codes, subst (IsInside s) (sym same) h),
        λ h. subst (IsInside s) same (elim h [ inl k ↦ k.1 | inr k ↦ rest-IsInside c s t k ]),
      )
  | inr q ↦
      let (there, back) = after-some c s t rest (ground arith) in
      (λ h. inr (there h), λ h. elim h [ inl k ↦ absurd (ground arith) | inr k ↦ back k ])
]

after-none : (c : Char) (s hay : String) → after c hay ≡ none → IsInside (String.◌∷◌ c s) hay → ⊥
unfolding after
after-none c s String.[] e h = h
after-none c s (String.◌∷◌ d t) e (inl (q, h)) = absurd (ground arith)
after-none c s (String.◌∷◌ d t) e (inr h) = after-none c s t (ground arith) h

matches_from-IsInside : (s hay : String) → (matches_from s hay ≡ true) ↔ IsInside s hay
unfolding matches_from
matches_from-IsInside String.[] hay = (λ e. tt, λ h. refl)
matches_from-IsInside (String.◌∷◌ c s) hay = elim (Option-cases (after c hay)) [
  | inl e ↦ (λ h. absurd (ground arith), λ h. absurd (after-none c s hay e h))
  | inr (rest, e) ↦
      let (there, back) = after-some c s hay rest e in
      let (one, two) = matches_from-IsInside s rest in
      (λ h. there (one (ground arith)), λ h. let m = two (back h) in ground arith)
]

-- The search from character to character finds a match if and only if the characters of the needle,
-- in lower case and without its spaces, stand in the text in their order.
pub matches-IsInside :
    (u : Unicode) (needle hay : String)
    → (matches u needle hay ≡ true) ↔ IsInside (without_spaces (u.casefold needle)) hay
unfolding matches
matches-IsInside u needle hay = matches_from-IsInside (without_spaces (u.casefold needle)) hay
