-- ===== src/Base/Text.antt =====
-- Equality of texts, as a decision and as a test, and their order.
use Prim.Native.String.{String}
use Prim.Native.Char.{code}
use Prim.Native.Nat.{compare, Ordering}
use mathlib.Core.Path.{◌≡◌, refl}
use mathlib.Core.Bool.{Bool, true, false}
use mathlib.Core.Logic.{◌↔◌}
use native.Mathlib.Omega.{arith}
use text.Mathlib.Text.{◌==◌ as str_eq}
use text.Mathlib.TextEquality.{eq_iff}

decide_by : {P : Type 0} (b : Bool) → (b ≡ true) ↔ P → Dec P
decide_by true h = yes (h.0 refl)
decide_by false h = no (λ p. false_true (h.1 p))
  where
    false_true : false ≡ true → ⊥
    false_true e = cc

unfoldable pub string_dec : Discrete String
unfolding decide_by
string_dec s t = decide_by (str_eq s t) (eq_iff s t)

-- Python's `s == t` between texts.
infix 50 ◌=~◌
abbrev pub ◌=~◌ : String → String → Bool
s =~ t = elim (string_dec s t) [ yes _ ↦ true | no _ ↦ false ]

-- Python's `s in {…}` for a literal set of texts.
abbrev pub one_of : String → String → String → Bool
one_of s a b = elim (string_dec s a) [ yes _ ↦ true | no _ ↦ s =~ b ]

pub =~_refl : (s : String) → (s =~ s) ≡ true
=~_refl s = ground arith

pub =~→eq : (s t : String) → (s =~ t) ≡ true → s ≡ t
=~→eq s t e = ground arith

-- Comparison of tuples: the first difference decides.
abbrev pub then_by : Ordering → Ordering → Ordering
then_by Ordering.lt o = Ordering.lt
then_by Ordering.eq o = o
then_by Ordering.gt o = Ordering.gt

unfoldable pub compare_text : String → String → Ordering
compare_text String.[] String.[] = Ordering.eq
compare_text String.[] (String.◌∷◌ d t) = Ordering.lt
compare_text (String.◌∷◌ c s) String.[] = Ordering.gt
compare_text (String.◌∷◌ c s) (String.◌∷◌ d t) =
    then_by (compare (code c) (code d)) (compare_text s t)
