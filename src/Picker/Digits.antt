-- ===== src/Picker/Digits.antt =====
-- The decimal digits that `str` writes, read back.
use Prim.Native.Char.{code}
use Prim.Native.String.{◌++◌}
use text.Mathlib.TextLemmas.{nil-append, cons-append}
use session_kit.Base.{
  ℕ, zero, suc, ◌+◌, ◌-◌, ◌*◌, ◌/◌, ◌%◌, ◌≤◌, ◌<◌, ◌≡◌, refl, ◌∙◌, String, true, ◌&&◌, ltb,
  Bool-cases, inl, inr, ltb→lt, ltb→ge, arith,
}
use session_kit.Common.Text.{all_digits}
use session_kit.Selection.Grammar.{is_digits, int_of}
use session_kit.Picker.Print.{digit, show_with, show}

int_of-digit : (k d : ℕ) → d < 10 → int_of k (digit d) ≡ 10 * k + d
unfolding int_of
int_of-digit k zero h = omega arith
int_of-digit k (suc zero) h = omega arith
int_of-digit k (suc (suc zero)) h = omega arith
int_of-digit k (suc (suc (suc zero))) h = omega arith
int_of-digit k (suc (suc (suc (suc zero)))) h = omega arith
int_of-digit k (suc (suc (suc (suc (suc zero))))) h = omega arith
int_of-digit k (suc (suc (suc (suc (suc (suc zero)))))) h = omega arith
int_of-digit k (suc (suc (suc (suc (suc (suc (suc zero))))))) h = omega arith
int_of-digit k (suc (suc (suc (suc (suc (suc (suc (suc zero)))))))) h = omega arith
int_of-digit k (suc (suc (suc (suc (suc (suc (suc (suc (suc zero))))))))) h = omega arith
int_of-digit k (suc (suc (suc (suc (suc (suc (suc (suc (suc (suc d)))))))))) h =
    absurd (omega (arith, h))

int_of-append : (k : ℕ) (s t : String) → int_of k (s ++ t) ≡ int_of (int_of k s) t
unfolding int_of
int_of-append k String.[] t = rw (nil-append t) refl
int_of-append k (String.◌∷◌ c s) t =
    rw (cons-append c s t) (int_of-append (10 * k + (code c - 48)) s t)

all_digits-digit : (d : ℕ) → all_digits (digit d) ≡ true
all_digits-digit zero = refl
all_digits-digit (suc zero) = refl
all_digits-digit (suc (suc zero)) = refl
all_digits-digit (suc (suc (suc zero))) = refl
all_digits-digit (suc (suc (suc (suc zero)))) = refl
all_digits-digit (suc (suc (suc (suc (suc zero))))) = refl
all_digits-digit (suc (suc (suc (suc (suc (suc zero)))))) = refl
all_digits-digit (suc (suc (suc (suc (suc (suc (suc zero))))))) = refl
all_digits-digit (suc (suc (suc (suc (suc (suc (suc (suc zero)))))))) = refl
all_digits-digit (suc (suc (suc (suc (suc (suc (suc (suc (suc d))))))))) = refl

pub all_digits-append : (s t : String) → all_digits (s ++ t) ≡ (all_digits s && all_digits t)
all_digits-append String.[] t = rw (nil-append t) refl
all_digits-append (String.◌∷◌ c s) t =
    rw (cons-append c s t) (ground (arith, all_digits-append s t))

show_with-digits : (fuel n : ℕ) → all_digits (show_with fuel n) ≡ true
unfolding show_with
show_with-digits zero n = all_digits-digit n
show_with-digits (suc fuel) n = elim (Bool-cases (ltb n 10)) [
  | inl e ↦ rw e (all_digits-digit n)
  | inr e ↦ rw (e, all_digits-append, show_with-digits fuel (n / 10)) (all_digits-digit (n % 10))
]

int_of-show_with : (fuel n : ℕ) → n ≤ fuel → int_of 0 (show_with fuel n) ≡ n
unfolding show_with
int_of-show_with zero n h = int_of-digit 0 n (omega (arith, h)) ∙ omega arith
int_of-show_with (suc fuel) n h = elim (Bool-cases (ltb n 10)) [
  | inl e ↦ rw e (int_of-digit 0 n (ltb→lt n 10 e) ∙ omega arith)
  | inr e ↦
      let low : 10 ≤ n = ltb→ge n 10 e in
      let small : n / 10 ≤ fuel = omega (arith, low, h) in
      rw (e, int_of-append, int_of-show_with fuel (n / 10) small)
        (int_of-digit (n / 10) (n % 10) (omega arith) ∙ omega arith)
]

is_digits-digit : (d : ℕ) → is_digits (digit d) ≡ true
unfolding is_digits
is_digits-digit zero = refl
is_digits-digit (suc zero) = refl
is_digits-digit (suc (suc zero)) = refl
is_digits-digit (suc (suc (suc zero))) = refl
is_digits-digit (suc (suc (suc (suc zero)))) = refl
is_digits-digit (suc (suc (suc (suc (suc zero))))) = refl
is_digits-digit (suc (suc (suc (suc (suc (suc zero)))))) = refl
is_digits-digit (suc (suc (suc (suc (suc (suc (suc zero))))))) = refl
is_digits-digit (suc (suc (suc (suc (suc (suc (suc (suc zero)))))))) = refl
is_digits-digit (suc (suc (suc (suc (suc (suc (suc (suc (suc d))))))))) = refl

is_digits-append :
    (s t : String) → is_digits s ≡ true → all_digits t ≡ true → is_digits (s ++ t) ≡ true
unfolding is_digits
is_digits-append String.[] t h k = cc
is_digits-append (String.◌∷◌ c s) t h k =
    rw (cons-append c s t) (ground (arith, all_digits-append s t))

show_with-is_digits : (fuel n : ℕ) → is_digits (show_with fuel n) ≡ true
unfolding show_with
show_with-is_digits zero n = is_digits-digit n
show_with-is_digits (suc fuel) n = elim (Bool-cases (ltb n 10)) [
  | inl e ↦ rw e (is_digits-digit n)
  | inr e ↦ rw e (
      is_digits-append (show_with fuel (n / 10)) (digit (n % 10))
        (show_with-is_digits fuel (n / 10)) (all_digits-digit (n % 10)))
]

-- What `str` writes is digits, and `int` reads the number back.
pub show-int_of :
    (n : ℕ) → (is_digits (show n) ≡ true) × (all_digits (show n) ≡ true) × (int_of 0 (show n) ≡ n)
unfolding show
show-int_of n = (show_with-is_digits n n, show_with-digits n n, int_of-show_with n n (omega arith))
