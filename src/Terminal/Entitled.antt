-- ===== src/Terminal/Entitled.antt =====
-- terminal.py, `apply_terminal_numbers`: who may be given a number that is bound at the start of a
-- run, alive or in quarantine.
use session_kit.Base.{
  ℕ, ◌≡◌, ◌⊎◌, inl, inr, String, Bool, true, false, ◌&&◌, List, [], ◌∷◌, Option, none, some, arith,
  contains, any, All, All-map, Paired, ◌==◌, ◌=~◌, =~_refl,
}
use session_kit.Base.Assoc.{Dict, All-lookup}
use session_kit.Json.{Value}
use session_kit.Common.Text.{Unicode}
use session_kit.Terminal.Number.{
  ok, Pass, Mode, Keys, Outcome, outcome, apply_terminal_numbers, keys_of, start_pass,
  kept_bindings, mode_of, number_of,
}
use session_kit.Terminal.Registry.{Registry, Retirements, numbers_of}
use session_kit.Terminal.Bindings.{Claimed-All}
use session_kit.Terminal.Rows.{row_number}
use session_kit.Terminal.Steps.{skipped, numbered, Rows, done, step, apply_terminal_numbers-Ran}
use session_kit.Terminal.Choices.{
  Choice, conversation, shell, fresh, unnumbered, Choice-kept, Choice-reserves, Claimed,
}

-- The bindings hold the key with this number.
abbrev pub has_entry : String → ℕ → Dict ℕ → Bool
has_entry k n = any (λ e. (e.0 =~ k) && (e.1 == n))

abbrev pub owns : Option String → ℕ → Dict ℕ → Bool
owns none n d = false
owns (some k) n d = has_entry k n d

-- A row that shows a number which was bound has one of the keys that it was bound to.
abbrev pub Entitled : Dict ℕ → Keys → Option ℕ → Type 0
Entitled d k none = Unit
Entitled d k (some n) =
    (contains n (numbers_of d) ≡ false) ⊎ (owns k.ai n d ≡ true) ⊎ (owns k.generation n d ≡ true)

module _ (d : Dict ℕ) where
  -- An entry is one of the first, or its number is active already.
  abbrev Accounted : List ℕ → String × ℕ → Type 0
  Accounted active e = (has_entry e.0 e.1 d ≡ true) ⊎ (contains e.1 active ≡ true)

  record Inv (p : Pass) : Type 0 where
    guarded : (n : ℕ) → contains n (numbers_of d) ≡ true → contains n p.reserved ≡ true
    accounted : All (Accounted p.active) p.bindings

  Accounted-later :
      (x : ℕ) (active : List ℕ) (e : String × ℕ) → Accounted active e → Accounted (x ∷ active) e
  Accounted-later x active e (inl h) = inl h
  Accounted-later x active e (inr h) = inr (ground arith)

  -- What the first key's number says, given that it is not active.
  owned :
      (k : Option String) (x : ℕ) (p : Pass)
      → Inv p
      → contains x p.active ≡ false
      → number_of k p.bindings ≡ some x
      → owns k x d ≡ true
  owned none x p v new e = cc
  owned (some k) x p v new e =
      ground (arith, All-lookup (Accounted p.active) k x p.bindings v.accounted e)

  Choice-Entitled :
      (m : Mode) (k : Keys) (x : ℕ) (p q : Pass)
      → Inv p
      → Choice m k p (some x) q
      → contains x p.active ≡ false
      → Entitled d k (some x)
  Choice-Entitled m k x p q v (unnumbered a n e) new = cc
  Choice-Entitled m k x p q v (conversation y a n e) new = ground (arith, owned k.ai x p v new)
  Choice-Entitled m k x p q v (shell y a b n e) new = ground (arith, owned k.generation x p v new)
  Choice-Entitled m k x p q v (fresh y next a b c f g i n e) new = ground (arith, v.guarded x)

  step-Inv :
      (m : Mode) (k : Keys) (x : ℕ) (p q r : Pass)
      → Inv p
      → Choice m k p (some x) q
      → Claimed m k x q r
      → Inv r
  step-Inv m k x p q r v c cl = record {
    guarded = λ n h. rw (cl.reserved) (Choice-reserves c n (v.guarded n h));
    accounted = rw cl.active (
        rw ((Choice-kept c).0) (
          Claimed-All (Accounted (x ∷ p.active)) c cl (λ key. inr (ground arith))
            (All-map _ p.bindings (Accounted-later x p.active) v.accounted)));
  }

module _ (u : Unicode) (digest : Value → String) (boot_id : String) (m : Mode) (d : Dict ℕ) where
  Rows-Entitled :
      {rows rows' : List Value} {p p' : Pass}
      → Rows u digest boot_id m rows p rows' p'
      → Inv d p
      → Paired
          (λ item item'. Entitled d (keys_of u digest boot_id m item) (row_number item'))
          rows
          rows'
  Rows-Entitled done v = tt
  Rows-Entitled (step (skipped w e same) rest) v = (rw e tt, Rows-Entitled rest (rw same v))
  Rows-Entitled (step {p = p} {p1 = p1} (numbered x q e c cl) rest) v = (
    rw e (Choice-Entitled d m _ x p q v c (ground (arith, Choice-kept c))),
    Rows-Entitled rest (step-Inv d m _ x p q p1 v c cl),
  )

numbers_entry :
    (d b : Dict ℕ)
    → ((e : String × ℕ) → has_entry e.0 e.1 d ≡ true → has_entry e.0 e.1 b ≡ true)
    → All (Accounted b []) d
numbers_entry [] b f = tt
numbers_entry (e ∷ d) b f =
    (inl (f e (ground (arith, =~_refl e.0))), numbers_entry d b (λ x h. f x (ground arith)))

start-Inv : (d : Dict ℕ) (next : ℕ) → Inv d (start_pass d next)
unfolding start_pass
start-Inv d next = record { guarded = λ n h. h; accounted = numbers_entry d d (λ e h. h) }

-- A number that is bound when the run starts, alive or in quarantine, is shown only by a row whose
-- exact conversation or shell generation it is bound to. So no run hands a number out before its
-- quarantine is over.
pub apply_terminal_numbers-Entitled :
    (u : Unicode) (digest : Value → String) (boot_id : String) (now quarantine : ℕ)
    (allocate : Bool) (retired : Option Retirements) (rows : List Value) (r : Registry)
    (o : Outcome)
    → apply_terminal_numbers u digest boot_id now quarantine allocate retired rows (some r) ≡ ok o
    → Paired
        (λ item item'.
          Entitled
            (kept_bindings u digest boot_id now quarantine allocate retired r)
            (keys_of u digest boot_id (mode_of allocate retired) item)
            (row_number item'))
        rows
        o.sessions
unfolding outcome
apply_terminal_numbers-Entitled u digest boot_id now quarantine allocate retired rows r o h =
    let ran =
      apply_terminal_numbers-Ran u digest boot_id now quarantine allocate retired rows r o h in
    rw (ran.result, outcome) (Rows-Entitled u digest boot_id _ _ ran.rows_done (start-Inv _ _))
