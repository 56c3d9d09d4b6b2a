-- ===== src/Picker/Leave.antt =====
-- lib/sessionkit_tui/state.py: `escape`, and how the picker is left.
use session_kit.Base.{
  ℕ, zero, suc, ◌+◌, ◌<◌, ◌≤◌, ◌≡◌, refl, ◌∙◌, ◌⊎◌, inl, inr, Bool, true, false, none, ◌||◌, ltb,
  ltb→lt, ltb→ge, ◌=~◌, =~_refl, Bool-cases, Option-cases, arith,
}
use session_kit.Picker.State.{View, Picker}
use session_kit.Picker.Events.{escape, escape_view, close_panel, to_list, leave, has_panel, in_list}

-- How many things there are to step out of: a panel, typed input, a second screen.
abbrev pub one_if : Bool → ℕ
one_if true = 1
one_if false = 0

abbrev pub one_unless : Bool → ℕ
one_unless true = 0
one_unless false = 1

abbrev pub depth : Picker → ℕ
depth p = one_if (has_panel p) + (one_unless (p.input_text =~ "") + one_unless (in_list p.view))

abbrev pub escapes : ℕ → Picker → Picker
escapes zero p = p
escapes (suc n) p = escapes n (escape p)

View-cases :
    (v : View)
    → (v ≡ View.list) ⊎ ((in_list v ≡ false) × ((p : Picker) → escape_view v p ≡ to_list p))
unfolding escape_view
View-cases View.list = inl refl
View-cases View.closed = inr (refl, λ p. refl)
View-cases View.help = inr (refl, λ p. refl)

-- One step out, or the way out.
abbrev pub Steps : Picker → Picker → Type 0
Steps p q =
    ((depth p ≡ 0) × (q.leaving ≡ true)) ⊎ ((depth p ≡ suc (depth q)) × (q.leaving ≡ p.leaving))

pub escape-Steps : (p : Picker) → Steps p (escape p)
unfolding escape close_panel leave to_list escape_view
escape-Steps p = elim (Option-cases p.panel) [
  | inr (panel, e) ↦ rw e (inr (omega arith, refl))
  | inl e ↦ elim (Bool-cases (p.input_text =~ "")) [
    | inr f ↦ rw (e, f, =~_refl "") (inr (omega arith, refl))
    | inl f ↦ elim (View-cases p.view) [
      | inl g ↦ rw (e, f, g) (inl (refl, refl))
      | inr (g, same) ↦ rw (e, f, g, same (record p { panel = none }), f) (inr (omega arith, refl))
    ]
  ]
]

stays_left : (n : ℕ) (p : Picker) → p.leaving ≡ true → (escapes n p).leaving ≡ true
stays_left zero p h = h
stays_left (suc n) p h = elim (escape-Steps p) [
  | inl (_, left) ↦ stays_left n (escape p) left
  | inr (_, same) ↦ stays_left n (escape p) (same ∙ h)
]

escapes-left : (n : ℕ) (p : Picker) → depth p < n → (escapes n p).leaving ≡ true
escapes-left zero p h = absurd (omega (arith, h))
escapes-left (suc n) p h = elim (escape-Steps p) [
  | inl (_, left) ↦ stays_left n (escape p) left
  | inr (more, _) ↦ escapes-left n (escape p) (omega (arith, h, more))
]

escapes-same : (n : ℕ) (p : Picker) → n ≤ depth p → (escapes n p).leaving ≡ p.leaving
escapes-same zero p h = refl
escapes-same (suc n) p h = elim (escape-Steps p) [
  | inl (none_deep, _) ↦ absurd (omega (arith, h, none_deep))
  | inr (more, same) ↦ escapes-same n (escape p) (omega (arith, h, more)) ∙ same
]

one_if-le : (b : Bool) → one_if b ≤ 1
one_if-le b = ground arith

one_unless-le : (b : Bool) → one_unless b ≤ 1
one_unless-le b = ground arith

-- There are at most three things to step out of: a panel, typed input and a second screen. A picker
-- that Esc was pressed on has left if and only if it had left before, or Esc was pressed more often
-- than there were such things.
pub escapes-leaving :
    (n : ℕ) (p : Picker) → (depth p ≤ 3) × ((escapes n p).leaving ≡ (p.leaving || ltb (depth p) n))
escapes-leaving n p = (
  omega (
    arith,
    one_if-le (has_panel p),
    one_unless-le (p.input_text =~ ""),
    one_unless-le (in_list p.view),
  ),
  elim (Bool-cases (ltb (depth p) n)) [
    | inl e ↦ ground (arith, escapes-left n p (ltb→lt (depth p) n e))
    | inr e ↦ ground (arith, escapes-same n p (ltb→ge (depth p) n e))
  ],
)
