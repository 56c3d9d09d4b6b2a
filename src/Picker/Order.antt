-- ===== src/Picker/Order.antt =====
-- lib/sessionkit_inventory/model.py: `canonical_session_order_key`, the order of every list of
-- sessions. The values that it passes to `str` are texts here.
use Prim.Native.String.{◌++◌}
use Prim.Native.Nat.{compare, Ordering}
use session_kit.Base.{
  ℕ, String, Bool, true, false, List, [], ◌∷◌, Option, none, some, ◌=~◌, if◌then◌else◌, then_by,
  compare_text,
}
use session_kit.Base.Int.{ℤ, pos, ltb_ℤ, eqb_ℤ}
use session_kit.Base.Assoc.{Dict, lookup}
use session_kit.Json.{Value, int, str, get}
use session_kit.Common.Text.{Unicode, is_digit}
use session_kit.Selection.Grammar.{int_of}
use session_kit.Labels.{session_state}

-- An ℤ below another, and so first.
abbrev compare_ℤ : ℤ → ℤ → Ordering
compare_ℤ a b = if ltb_ℤ a b then Ordering.lt else if eqb_ℤ a b then Ordering.eq else Ordering.gt

pub data Part : Type 0 where
  word : String → Part
  number : ℕ → Part

-- `re.split(r"([0-9]+)", s)`: words and runs of digits by turns. The one under way is a word.
-- The second function has a run under way.
unfoldable mutual
  pub words : Unicode → String → String → List Part
  words u w String.[] = word (u.casefold w) ∷ []
  words u w (String.◌∷◌ c s) =
      let digits = runs u (String.◌∷◌ c "") s in
      let rest = words u (w ++ String.◌∷◌ c "") s in
      if is_digit c then word (u.casefold w) ∷ digits else rest

  pub runs : Unicode → String → String → List Part
  runs u d String.[] = number (int_of 0 d) ∷ word (u.casefold "") ∷ []
  runs u d (String.◌∷◌ c s) =
      let digits = runs u (d ++ String.◌∷◌ c "") s in
      let rest = words u (String.◌∷◌ c "") s in
      if is_digit c then digits else number (int_of 0 d) ∷ rest

-- Words stand against words, and numbers against numbers.
abbrev compare_part : Part → Part → Ordering
compare_part (word s) (word t) = compare_text s t
compare_part (number m) (number n) = compare m n
compare_part (word s) (number n) = Ordering.lt
compare_part (number m) (word t) = Ordering.gt

unfoldable pub compare_parts : List Part → List Part → Ordering
compare_parts [] [] = Ordering.eq
compare_parts [] (q ∷ qs) = Ordering.lt
compare_parts (p ∷ ps) [] = Ordering.gt
compare_parts (p ∷ ps) (q ∷ qs) = then_by (compare_part p q) (compare_parts ps qs)

abbrev text_or : String → Value → String
text_or t (str s) = if s =~ "" then t else s
text_or t _ = t

-- `table.get(word, 9)`
abbrev rank : String → Dict ℕ → ℕ
rank w table = elim (lookup w table) [ none ↦ 9 | some n ↦ n ]

-- The tuple, with the recorded moment negated: the newest is first.
pub record Key : Type 0 where
  pub availability : ℕ
  pub state : ℕ
  pub provider : ℕ
  pub recent : Option ℤ
  pub natural_id : List Part
  pub selector : ℤ
  pub identifier : String

abbrev whole : Value → Option ℤ
whole (int n) = some n
whole _ = none

abbrev whole_or : ℤ → Value → ℤ
whole_or m (int n) = n
whole_or m _ = m

unfoldable pub canonical_session_order_key : Unicode → ℕ → Value → Key
unfolding words runs
canonical_session_order_key u stall row =
    let identifier : String =
      text_or (text_or "" (get "shpool_id" row)) (get "shpool_id_raw" row) in
    record {
      availability =
          rank (u.casefold (text_or "" (get "availability" row)))
            (("ready", 0) ∷ ("attached", 1) ∷ []);
      state =
          rank (session_state u stall row) (
            ("question", 0)
            ∷ ("needs you", 1)
            ∷ ("pending", 2)
            ∷ ("working", 2)
            ∷ ("idle", 3)
            ∷ []);
      provider =
          rank (u.casefold (text_or (text_or "" (get "provider" row)) (get "display_provider" row)))
            (("claude", 0) ∷ ("codex", 1) ∷ ("shell", 2) ∷ ("unknown", 3) ∷ []);
      recent = whole (get "recent_output_at_unix_ms" row);
      natural_id = words u "" identifier;
      selector = whole_or (pos 1000000000) (get "terminal_number" row);
      identifier = identifier;
    }

-- `(recent is None, -(recent or 0))`
abbrev compare_recent : Option ℤ → Option ℤ → Ordering
compare_recent (some a) (some b) = compare_ℤ b a
compare_recent (some a) none = Ordering.lt
compare_recent none (some b) = Ordering.gt
compare_recent none none = Ordering.eq

unfoldable pub compare_key : Key → Key → Ordering
compare_key k l = then_by (compare k.availability l.availability) (
    then_by (compare k.state l.state) (
      then_by (compare k.provider l.provider) (
        then_by (compare_recent k.recent l.recent) (
          then_by (compare_parts k.natural_id l.natural_id)
            (then_by (compare_ℤ k.selector l.selector) (compare_text k.identifier l.identifier))))))

-- The first row comes before the second in the order.
unfoldable pub comes_before : Unicode → ℕ → Value → Value → Bool
unfolding compare_key canonical_session_order_key compare_text compare_parts words runs
comes_before u stall row other =
    elim (compare_key (canonical_session_order_key u stall row)
      (canonical_session_order_key u stall other)) [ Ordering.lt ↦ true | _ ↦ false ]
