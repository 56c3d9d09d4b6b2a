-- ===== src/Json/Equal.antt =====
-- Python's `==` between JSON values: numbers compare across `bool`, `int` and `float`, and the
-- order of a dict's keys does not count.
use session_kit.Base.{ℕ, suc, ◌-◌, ◌*◌, Bool, true, false, ◌&&◌, not, Option, none, some, ◌==◌}
use session_kit.Base.Int.{ℤ, pos, negsuc, eqb_ℤ}
use session_kit.Json.Data.{
  Float, infinite, millionths, Value, null, bool, int, float, str, list, object, Items, nil, cons,
  Fields, end, field, has_field, field_or_null, is_none, is_text,
}

abbrev whole : ℤ → Float
whole (pos n) = millionths (pos (n * 1000000))
whole (negsuc n) = millionths (negsuc (suc n * 1000000 - 1))

abbrev numeric : Value → Option Float
numeric (bool true) = some (whole (pos 1))
numeric (bool false) = some (whole (pos 0))
numeric (int z) = some (whole z)
numeric (float f) = some f
numeric _ = none

abbrev same_sign : Bool → Bool → Bool
same_sign true b = b
same_sign false b = not b

abbrev same_float : Float → Float → Bool
same_float (infinite a) (infinite b) = same_sign a b
same_float (millionths a) (millionths b) = eqb_ℤ a b
same_float _ _ = false

abbrev same_number : Option Float → Option Float → Bool
same_number (some a) (some b) = same_float a b
same_number _ _ = false

abbrev pub fields : Fields → ℕ
fields end = 0
fields (field k v fs) = suc (fields fs)

unfoldable mutual
  pub equal : Value → Value → Bool
  equal null w = is_none w
  equal (str s) w = is_text s w
  equal (list xs) (list ys) = equal_items xs ys
  equal (object fs) (object gs) = (fields fs == fields gs) && equal_fields fs gs
  equal v w = same_number (numeric v) (numeric w)

  pub equal_items : Items → Items → Bool
  equal_items nil nil = true
  equal_items (cons v vs) (cons w ws) = equal v w && equal_items vs ws
  equal_items _ _ = false

  pub equal_fields : Fields → Fields → Bool
  equal_fields end gs = true
  equal_fields (field k v fs) gs =
      has_field k gs && equal v (field_or_null k gs) && equal_fields fs gs
