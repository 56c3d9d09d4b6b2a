-- ===== src/Lifecycle/Agrees.antt =====
-- lib/sessionkit_inventory/lifecycle.py: writes that leave the fields of the invariant as they are.
use session_kit.Base.{
  ◌≡◌, refl, ap, subst, ◌∙◌, inl, inr, String, true, false, ◌&&◌, not, some, arith, ◌=~◌,
  string_dec, Bool-cases,
}
use session_kit.Base.Int.{pos}
use session_kit.Json.{
  Value, null, bool, int, float, str, list, object, field_or_null-set_field, get, put, has,
  is_mapping, truthy, equal,
}
use session_kit.Lifecycle.Exits.{
  upgraded, is_valid_state, validated_state, load_state, Shell, same_generation, stamped,
}

-- The four fields that the invariant reads.
pub record Agrees (v w : Value) : Type 0 where
  pub mapping : is_mapping w ≡ is_mapping v
  pub boot : get "boot_id" w ≡ get "boot_id" v
  pub pid : get "shell_pid" w ≡ get "shell_pid" v
  pub ticks : get "shell_start_ticks" w ≡ get "shell_start_ticks" v
  pub typed : get "user_input_after_exit" w ≡ get "user_input_after_exit" v

-- Somebody has used the shell of this generation after its provider's exit.
pub record IsBlocked (s : Shell) (v : Value) : Type 0 where
  pub mapping : is_mapping v ≡ true
  pub typed : truthy (get "user_input_after_exit" v) ≡ true
  pub same : same_generation s v ≡ true

pub Agrees-IsBlocked : (s : Shell) (v w : Value) → Agrees v w → IsBlocked s v → IsBlocked s w
unfolding same_generation
Agrees-IsBlocked s v w a b = record {
  mapping = a.mapping ∙ b.mapping;
  typed = ap truthy a.typed ∙ b.typed;
  same = rw (a.mapping, a.boot, a.pid, a.ticks) b.same;
}

-- None of the four.
abbrev pub IsOther : String → Type 0
IsOther k =
    ((k =~ "boot_id") ≡ false)
    × ((k =~ "shell_pid") ≡ false)
    × ((k =~ "shell_start_ticks") ≡ false)
    × ((k =~ "user_input_after_exit") ≡ false)

-- The write of any other field agrees.
pub put-Agrees : (k : String) (w v : Value) → IsOther k → Agrees v (put k w v)
unfolding get put
put-Agrees k w (object fs) (a, b, c, d) = record {
  mapping = refl;
  boot = ground (arith, field_or_null-set_field k "boot_id" w fs);
  pid = ground (arith, field_or_null-set_field k "shell_pid" w fs);
  ticks = ground (arith, field_or_null-set_field k "shell_start_ticks" w fs);
  typed = ground (arith, field_or_null-set_field k "user_input_after_exit" w fs);
}
put-Agrees k w _ h = record { mapping = refl; boot = refl; pid = refl; ticks = refl; typed = refl }

Agrees-trans : (a b c : Value) → Agrees a b → Agrees b c → Agrees a c
Agrees-trans a b c p q = record {
  mapping = q.mapping ∙ p.mapping;
  boot = q.boot ∙ p.boot;
  pid = q.pid ∙ p.pid;
  ticks = q.ticks ∙ p.ticks;
  typed = q.typed ∙ p.typed;
}

put_two : (j k : String) (x w v : Value) → IsOther j → IsOther k → Agrees v (put j x (put k w v))
put_two j k x w v p q =
    Agrees-trans v (put k w v) _ (put-Agrees k w v q) (put-Agrees j x (put k w v) p)

upgraded-Agrees : (v : Value) → Agrees v (upgraded v)
unfolding upgraded string_dec
upgraded-Agrees v =
    elim (Bool-cases (
      is_mapping v
      && equal (get "schema_version" v) (int (pos 2))
      && not (has "conversation_uuid" v))) [
        | inl e ↦
            rw (e, upgraded)
              (put_two "conversation_uuid" "schema_version" null (int (pos 3)) v
                (refl, refl, refl, refl) (refl, refl, refl, refl))
        | inr e ↦
            rw (e, upgraded)
              (record { mapping = refl; boot = refl; pid = refl; ticks = refl; typed = refl })
      ]

pub stamped-Agrees : (g : String) (v : Value) → Agrees v (stamped g v)
unfolding stamped string_dec
stamped-Agrees g v =
    put_two "record_generation" "schema_version" (str g) (int (pos 4)) v (refl, refl, refl, refl)
      (refl, refl, refl, refl)

pub validated_state-Agrees :
    (key : String) (v w : Value) → validated_state key v ≡ some w → Agrees v w
unfolding validated_state
validated_state-Agrees key v w h = elim (Bool-cases (is_valid_state key (upgraded v))) [
  | inr e ↦ absurd (ground arith)
  | inl e ↦ let same : upgraded v ≡ w = ground arith in subst (Agrees v) same (upgraded-Agrees v)
]

pub load_state-Agrees :
    (key : String) (v w : Value) → is_mapping v ≡ true → load_state key v ≡ some w → Agrees v w
unfolding load_state
load_state-Agrees key (object fs) w m h = validated_state-Agrees key (object fs) w h
load_state-Agrees key null w m h = cc
load_state-Agrees key (bool b) w m h = cc
load_state-Agrees key (int z) w m h = cc
load_state-Agrees key (float f) w m h = cc
load_state-Agrees key (str t) w m h = cc
load_state-Agrees key (list xs) w m h = cc
