-- ===== src/Json/Data.antt =====
-- Values of a dynamic language: what `json.loads` returns. A finite float is a whole number of
-- millionths; the model does no arithmetic on floats that leaves them.
use session_kit.Base.{
  ℕ, ◌≡◌, refl, String, Bool, true, false, not, List, [], ◌∷◌, Option, none, some, arith, ◌=~◌,
  if◌then◌else◌, ltb,
}
use session_kit.Base.Int.{ℤ, pos}

pub data Float : Type 0 where
  nan : Float
  infinite : Bool → Float
  millionths : ℤ → Float

mutual
  pub data Value : Type 0 where
    null : Value
    bool : Bool → Value
    int : ℤ → Value
    float : Float → Value
    str : String → Value
    list : Items → Value
    object : Fields → Value

  pub data Items : Type 0 where
    nil : Items
    cons : Value → Items → Items

  pub data Fields : Type 0 where
    end : Fields
    field : String → Value → Fields → Fields

-- `{…}.get(k)`: a missing key reads as `None`.
abbrev pub field_or_null : String → Fields → Value
field_or_null k end = null
field_or_null k (field j v fs) = let rest = field_or_null k fs in if j =~ k then v else rest

abbrev pub has_field : String → Fields → Bool
has_field k end = false
has_field k (field j v fs) = let rest = has_field k fs in if j =~ k then true else rest

abbrev pub set_field : String → Value → Fields → Fields
set_field k v end = field k v end
set_field k v (field j w fs) =
    let rest = set_field k v fs in if j =~ k then field k v fs else field j w rest

abbrev pub drop_field : String → Fields → Fields
drop_field k end = end
drop_field k (field j w fs) = let rest = drop_field k fs in if j =~ k then rest else field j w rest

-- `v.get(k)`, guarded by `isinstance(v, Mapping)`: `None` where the value is no mapping.
unfoldable pub get : String → Value → Value
get k (object fs) = field_or_null k fs
get k _ = null

-- `v[k] = w` and `v.pop(k, None)` on a dict.
unfoldable pub put : String → Value → Value → Value
put k w (object fs) = object (set_field k w fs)
put k w v = v

unfoldable pub pop : String → Value → Value
pop k (object fs) = object (drop_field k fs)
pop k v = v

-- `k in v`
unfoldable pub has : String → Value → Bool
has k (object fs) = has_field k fs
has k _ = false

abbrev pub is_mapping : Value → Bool
is_mapping (object fs) = true
is_mapping _ = false

abbrev pub is_list : Value → Bool
is_list (list xs) = true
is_list _ = false

abbrev pub is_none : Value → Bool
is_none null = true
is_none _ = false

-- `v is True`, `v is False`
abbrev pub is_true : Value → Bool
is_true (bool true) = true
is_true _ = false

abbrev pub is_false : Value → Bool
is_false (bool false) = true
is_false _ = false

-- `isinstance(v, int) and not isinstance(v, bool) and v > 0`
abbrev pub is_positive_int : Value → Bool
is_positive_int (int (pos n)) = ltb 0 n
is_positive_int _ = false

-- The number of an integer that `is_positive_int` lets pass, 0 otherwise.
abbrev pub natural : Value → ℕ
natural (int (pos n)) = n
natural _ = 0

-- `isinstance(v, str)`, and the text itself.
abbrev pub is_str : Value → Bool
is_str (str s) = true
is_str _ = false

abbrev pub text_of : Value → Option String
text_of (str s) = some s
text_of _ = none

-- `v == "…"` for a literal text.
abbrev pub is_text : String → Value → Bool
is_text t (str s) = s =~ t
is_text t _ = false

-- `bool(v)`
abbrev pub truthy : Value → Bool
truthy null = false
truthy (bool b) = b
truthy (int (pos ℕ.zero)) = false
truthy (int _) = true
truthy (float (millionths (pos ℕ.zero))) = false
truthy (float _) = true
truthy (str s) = not (s =~ "")
truthy (list nil) = false
truthy (list (cons _ _)) = true
truthy (object end) = false
truthy (object (field _ _ _)) = true

-- The elements of a list; no other value is iterated over.
abbrev pub items : Items → List Value
items nil = []
items (cons v vs) = v ∷ items vs

abbrev pub elements : Value → List Value
elements (list xs) = items xs
elements _ = []

abbrev pub of_items : List Value → Items
of_items [] = nil
of_items (v ∷ vs) = cons v (of_items vs)

pub items-of_items : (vs : List Value) → items (of_items vs) ≡ vs
items-of_items [] = refl
items-of_items (v ∷ vs) = rw (items-of_items vs)

-- The laws by which a reader of a written row sees what was written.
pub field_or_null-set_field :
    (k j : String) (v : Value) (fs : Fields)
    → field_or_null j (set_field k v fs) ≡ (if k =~ j then v else field_or_null j fs)
field_or_null-set_field k j v end = refl
field_or_null-set_field k j v (field i w fs) = ground (arith, field_or_null-set_field k j v fs)

pub field_or_null-drop_field :
    (k j : String) (fs : Fields)
    → field_or_null j (drop_field k fs) ≡ (if k =~ j then null else field_or_null j fs)
field_or_null-drop_field k j end = ground arith
field_or_null-drop_field k j (field i w fs) = ground (arith, field_or_null-drop_field k j fs)
