-- ===== src/Terminal/Continuity.antt =====
-- terminal.py, `apply_terminal_numbers`: the number of a conversation, in whatever shell it is.
use session_kit.Base.{
  ℕ, ◌≡◌, refl, ◌⊎◌, inl, inr, String, Bool, true, false, List, [], ◌∷◌, Option, none, some, arith,
  Paired, Bool-cases,
}
use session_kit.Base.Assoc.{Dict, lookup, insert, lookup-insert}
use session_kit.Json.{Value}
use session_kit.Common.Text.{Unicode}
use session_kit.Terminal.Keys.{is_ai, is_generation}
use session_kit.Terminal.Prefixes.{
  ai_not_generation, is_generation-terminal_generation_key, is_ai-terminal_ai_key,
}
use session_kit.Terminal.Number.{
  ok, Pass, Mode, Keys, Outcome, outcome, apply_terminal_numbers, mode_of, start_pass,
  kept_bindings, number_of, keys_of, rebind, quarantine_reason,
}
use session_kit.Terminal.Registry.{Registry, Retirements, drop_other_generations}
use session_kit.Terminal.Rows.{row_number}
use session_kit.Terminal.Steps.{skipped, numbered, Rows, done, step, apply_terminal_numbers-Ran}
use session_kit.Terminal.Choices.{
  Choice, conversation, shell, fresh, unnumbered, Choice-kept, Claimed,
}

-- The numbers of the conversations are as they were at the start.
Keeps : Dict ℕ → Dict ℕ → Type 0
Keeps d b = (k : String) (n : ℕ) → is_ai k ≡ true → lookup k d ≡ some n → lookup k b ≡ some n

lookup-drop_other_generations :
    (k g : String) (x : ℕ) (d : Dict ℕ)
    → is_generation k ≡ false
    → lookup k (drop_other_generations x g d) ≡ lookup k d
lookup-drop_other_generations k g x [] h = refl
lookup-drop_other_generations k g x (e ∷ d) h =
    ground (arith, lookup-drop_other_generations k g x d h)

not_generation : (k : String) → is_ai k ≡ true → is_generation k ≡ false
not_generation k a = elim (Bool-cases (is_generation k)) [
  | inl g ↦ absurd (ai_not_generation k a g)
  | inr g ↦ g
]

lookup-rebind :
    (k g : String) (ai : Option String) (x n : ℕ) (d : Dict ℕ)
    → is_ai k ≡ true
    → is_generation g ≡ true
    → (number_of ai d ≡ some x) ⊎ (number_of ai d ≡ none)
    → lookup k d ≡ some n
    → lookup k (rebind g ai x d) ≡ some n
lookup-rebind k g none x n d a b c h = ground (
  arith,
  lookup-insert g k x (drop_other_generations x g d),
  lookup-drop_other_generations k g x d (not_generation k a),
  ai_not_generation g,
)
lookup-rebind k g (some j) x n d a b c h = ground (
  arith,
  lookup-insert j k x (insert g x (drop_other_generations x g d)),
  lookup-insert g k x (drop_other_generations x g d),
  lookup-drop_other_generations k g x d (not_generation k a),
  ai_not_generation g,
)

Choice-ai :
    {m : Mode} {k : Keys} {p q : Pass} {x : ℕ}
    → Choice m k p (some x) q
    → (number_of k.ai p.bindings ≡ some x) ⊎ (number_of k.ai p.bindings ≡ none)
Choice-ai (unnumbered a n e) = cc
Choice-ai (conversation x a n e) = inl (ground arith)
Choice-ai (shell x a b n e) = inr a
Choice-ai (fresh x next a b c f g i n e) = inr b

step-Keeps :
    {m : Mode} {k : Keys} {p q r : Pass} {x : ℕ} (d : Dict ℕ)
    → ((g : String) → k.generation ≡ some g → is_generation g ≡ true)
    → Choice m k p (some x) q
    → Claimed m k x q r
    → Keeps d p.bindings
    → Keeps d r.bindings
unfolding Keeps
step-Keeps {m = m} {k = k} {p = p} {q = q} {r = r} {x = x} d gen c cl h key n a e =
    elim cl.bindings [
      | inl (_, same) ↦ rw (same, (Choice-kept c).1) (h key n a e)
      | inr (g, named, _, same) ↦
          rw (same, (Choice-kept c).1)
            (lookup-rebind key g k.ai x n p.bindings a (gen g named) (Choice-ai c) (h key n a e))
    ]

number_of-known :
    (k : Option String) (key : String) (n : ℕ) (d b : Dict ℕ)
    → k ≡ some key
    → is_ai key ≡ true
    → Keeps d b
    → lookup key d ≡ some n
    → number_of k b ≡ some n
unfolding Keeps
number_of-known k key n d b e a h l = rw e (h key n a l)

module _ (u : Unicode) (digest : Value → String) (boot_id : String) (m : Mode) (d : Dict ℕ) where
  -- A row whose conversation has number `n`, and whose shell generation is known, shows `n`.
  abbrev pub Continues : Value → Value → Type 0
  Continues item item' =
      (k g : String) (n : ℕ)
      → (keys_of u digest boot_id m item).ai ≡ some k
      → (keys_of u digest boot_id m item).generation ≡ some g
      → lookup k d ≡ some n
      → row_number item' ≡ some n

  skipped_unknown :
      (item item' : Value) (p : Pass) {n : ℕ} {g : String}
      → ((reason : String) × (quarantine_reason u m
              (keys_of u digest boot_id m item).generation
              item
            ≡ some reason))
        ⊎ (number_of (keys_of u digest boot_id m item).ai p.bindings ≡ none)
      → number_of (keys_of u digest boot_id m item).ai p.bindings ≡ some n
      → (keys_of u digest boot_id m item).generation ≡ some g
      → row_number item' ≡ some n
  unfolding quarantine_reason
  skipped_unknown item item' p (inl (reason, e)) known gen = absurd (ground arith)
  skipped_unknown item item' p (inr e) known gen = cc

  Rows-Continues :
      {rows rows' : List Value} {p p' : Pass}
      → Rows u digest boot_id m rows p rows' p'
      → Keeps d p.bindings
      → Paired Continues rows rows'
  Rows-Continues done h = tt
  Rows-Continues (step {item = item} {item' = item'} {p = p} (skipped w e same) rest) h = (
    λ k g n ai gen l.
        skipped_unknown item item' p w
          (number_of-known _ k n d p.bindings ai (is_ai-terminal_ai_key item k ai) h l) gen,
    Rows-Continues rest (rw same h),
  )
  Rows-Continues (step {item = item} {p = p} (numbered x q e c cl) rest) h = (
    λ k g n ai gen l. ground (
      arith,
      Choice-ai c,
      number_of-known _ k n d p.bindings ai (is_ai-terminal_ai_key item k ai) h l,
    ),
    Rows-Continues rest
        (step-Keeps d (is_generation-terminal_generation_key digest boot_id item) c cl h),
  )

-- A conversation whose number is bound when an accepted run starts, alive or in quarantine, shows the
-- same number after it, also in a new shell, if the row's shell generation is known.
pub apply_terminal_numbers-Continues :
    (u : Unicode) (digest : Value → String) (boot_id : String) (now quarantine : ℕ)
    (allocate : Bool) (retired : Option Retirements) (rows : List Value) (r : Registry)
    (o : Outcome)
    → apply_terminal_numbers u digest boot_id now quarantine allocate retired rows (some r) ≡ ok o
    → Paired
        (Continues u digest boot_id
          (mode_of allocate retired)
          (kept_bindings u digest boot_id now quarantine allocate retired r))
        rows
        o.sessions
unfolding outcome start_pass Keeps
apply_terminal_numbers-Continues u digest boot_id now quarantine allocate retired rows r o h =
    let ran =
      apply_terminal_numbers-Ran u digest boot_id now quarantine allocate retired rows r o h in
    rw (ran.result, outcome) (Rows-Continues u digest boot_id _ _ ran.rows_done (λ k n a e. e))
