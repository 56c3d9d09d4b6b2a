-- ===== src/Picker/Proved.antt =====
-- lib/sessionkit_tui/state.py: which session each command of Enter is about.
use session_kit.Base.{
  ◌≡◌, refl, sym, ap, subst, ◌∙◌, ◌⊎◌, inl, inr, String, Bool, true, false, List, [], ◌∷◌, Option,
  none, some, find?, All, Any, Any-map, All-map, ◌=~◌, =~→eq, Bool-cases, Option-cases,
  if◌then◌else◌, string_dec, arith,
}
use session_kit.Common.Text.{Unicode}
use session_kit.Picker.Actions.{
  Plan, open_session, history, close, rename, change_account, change_model, color,
}
use session_kit.Picker.Model.{Session, Inventory, get_elem?, is_attached, has_key, by_key}
use session_kit.Picker.State.{Picker, found_in}
use session_kit.Picker.Panels.{key_of}

-- The second word of the command, which is its verb.
abbrev pub verb : Plan → String
verb plan = elim (get_elem? plan.argv 1) [ none ↦ "" | some w ↦ w ]

-- The session is listed.
abbrev pub IsListed : Inventory → Session → Type 0
IsListed i s = Any (λ t. t ≡ s) i.sessions

-- A command that runs with a proof names a session that is listed, and its ID.
abbrev pub IsExact : Inventory → Option String → Plan → Type 0
IsExact i none plan = Unit
IsExact i (some k) plan = Any (λ s. (s.key ≡ k) × (s.shpool_id ≡ plan.confirm_id)) i.sessions

-- And a close names one that the panel is about.
abbrev pub IsProved : Picker → Plan → Type 0
IsProved p plan =
    IsExact p.inventory plan.proof_for plan
    × (((verb plan =~ "picker-close") ≡ false) ⊎ Any (λ k. plan.proof_for ≡ some k) p.panel_targets)

find?-Any :
    {A : Type 0} (q : A → Bool) (xs : List A) (x : A)
    → find? q xs ≡ some x
    → Any (λ y. y ≡ x) xs × (q x ≡ true)
find?-Any q [] x e = cc
find?-Any q (y ∷ ys) x e = elim (Bool-cases (q y)) [
  | inl t ↦ let same : y ≡ x = ground arith in (inl same, subst (λ z. q z ≡ true) same t)
  | inr f ↦ let (later, t) = find?-Any q ys x (ground arith) in (inr later, t)
]

by_key-Any :
    (i : Inventory) (k : String) (s : Session)
    → by_key i k ≡ some s
    → IsListed i s × ((s.key =~ k) ≡ true)
unfolding by_key
by_key-Any i k s e = find?-Any (has_key k) i.sessions s e

-- The sessions of the panel are listed, and have the keys that it keeps.
abbrev pub IsTarget : Picker → Session → Type 0
IsTarget p s = IsListed p.inventory s × Any (λ k. k ≡ s.key) p.panel_targets

pub found_in-All :
    (i : Inventory) (ks : List String)
    → All (λ s. IsListed i s × Any (λ k. k ≡ s.key) ks) (found_in i ks)
found_in-All i [] = tt
found_in-All i (k ∷ ks) =
    let rest = All-map _ (found_in i ks) (λ s h. (h.0, inr h.1)) (found_in-All i ks) in
    elim (Option-cases (by_key i k)) [
      | inl e ↦ rw (e, All) rest
      | inr (s, e) ↦
          let (listed, same) = by_key-Any i k s e in
          rw (e, All) ((listed, inl (sym (=~→eq s.key k same))), rest)
    ]

exact :
    (i : Inventory) (s : Session) (plan : Plan)
    → IsListed i s
    → s.shpool_id ≡ plan.confirm_id
    → IsExact i (some s.key) plan
exact i s plan listed same =
    Any-map i.sessions (λ t e. (ap key_of e, ap (λ x. x.shpool_id) e ∙ same)) listed

not_close :
    (b : Bool) → ((if b then "picker-takeover" else "picker-open") =~ "picker-close") ≡ false
unfolding string_dec
not_close true = refl
not_close false = refl

pub close-IsProved : (p : Picker) (s : Session) → IsTarget p s → IsProved p (close s)
unfolding close
close-IsProved p s (listed, target) = (
  exact p.inventory s (close s) listed refl,
  inr (Any-map p.panel_targets (λ k e. ap some (sym e)) target),
)

module _ (p : Picker) (s : Session) (listed : IsListed p.inventory s) where
  pub open_session-IsProved : (u : Unicode) → IsProved p (open_session u s)
  unfolding open_session
  open_session-IsProved u =
      (exact p.inventory s (open_session u s) listed refl, inl (not_close (is_attached u s)))

  pub history-IsProved : IsProved p (history s)
  unfolding history string_dec
  history-IsProved = (exact p.inventory s (history s) listed refl, inl refl)

  pub rename-IsProved : (title : String) → IsProved p (rename s title)
  unfolding rename string_dec
  rename-IsProved title = (exact p.inventory s (rename s title) listed refl, inl refl)

  pub change_account-IsProved : (alias : String) → IsProved p (change_account s alias)
  unfolding change_account string_dec
  change_account-IsProved alias =
      (exact p.inventory s (change_account s alias) listed refl, inl refl)

  pub change_model-IsProved : (name : String) → IsProved p (change_model s name)
  unfolding change_model string_dec
  change_model-IsProved name = (tt, inl refl)

  pub color-IsProved : (name : String) → IsProved p (color s name)
  unfolding color string_dec
  color-IsProved name = (tt, inl refl)
