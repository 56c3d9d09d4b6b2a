-- ===== src/Terminal/Choices.antt =====
-- lib/sessionkit_inventory/terminal.py: the outcomes of choose.
use session_kit.Base.{
  ℕ, suc, ◌≤◌, ◌<◌, ◌≡◌, ◌⊎◌, inl, inr, String, true, false, ◌∷◌, Option, none, some, arith,
  Bool-cases, Option-cases, if◌then◌else◌, contains, length, leb, not, ◌||◌,
}
use session_kit.Terminal.Free.{next_free-not-reserved, next_free-ge}
use session_kit.Terminal.Number.{
  Pass, Mode, Keys, number_of, allocate_number, is_some, generation_number, choose, rebind,
}
use session_kit.Terminal.Registry.{next_free, ai_key_with_number}

-- How `choose` came to its number. A fresh number was free, and stays below `next_number`.
pub data Choice (m : Mode) (k : Keys) (p : Pass) (n : Option ℕ) (q : Pass) : Type 0 where
  unnumbered : number_of k.ai p.bindings ≡ none → n ≡ none → q ≡ p → Choice m k p n q
  conversation :
      (x : ℕ) → number_of k.ai p.bindings ≡ some x → n ≡ some x → q ≡ p → Choice m k p n q
  shell :
      (x : ℕ)
      → number_of k.ai p.bindings ≡ none
      → number_of k.generation p.bindings ≡ some x
      → n ≡ some x
      → q ≡ p
      → Choice m k p n q
  fresh :
      (x next : ℕ)
      → m.allocate ≡ true
      → number_of k.ai p.bindings ≡ none
      → contains x p.reserved ≡ false
      → (0 < p.next_number → 0 < x)
      → x < next
      → p.next_number ≤ next
      → n ≡ some x
      → q ≡ record p { reserved = x ∷ p.reserved; next_number = next }
      → Choice m k p n q

module _ (m : Mode) (k : Keys) (p : Pass) where
  lowest : ℕ
  lowest = next_free (length p.reserved) p.reserved 1

  onward : ℕ
  onward = next_free (length p.reserved) p.reserved p.next_number

  allocate_number-Choice :
      number_of k.ai p.bindings ≡ none
      → Choice m k p (allocate_number m p).0 (allocate_number m p).1
  unfolding allocate_number lowest onward
  allocate_number-Choice e = elim (Bool-cases m.allocate) [
    | inr no_alloc ↦ unnumbered e (ground arith) (ground arith)
    | inl alloc ↦ elim (Bool-cases m.recycle) [
      | inl rec ↦
          fresh lowest (if leb p.next_number lowest then suc lowest else p.next_number) alloc e
            (next_free-not-reserved p.reserved 1)
            (λ h. omega (arith, next_free-ge (length p.reserved) p.reserved 1)) (ground arith)
            (ground arith) (ground arith) (ground arith)
      | inr no_rec ↦
          fresh onward (suc onward) alloc e (next_free-not-reserved p.reserved p.next_number)
            (λ h. omega (arith, next_free-ge (length p.reserved) p.reserved p.next_number))
            (omega arith) (omega (arith, next_free-ge (length p.reserved) p.reserved p.next_number))
            (ground arith) (ground arith)
    ]
  ]

  generation_number-Choice :
      (g : ℕ)
      → number_of k.ai p.bindings ≡ none
      → number_of k.generation p.bindings ≡ some g
      → Choice m k p (generation_number m k g p).0 (generation_number m k g p).1
  unfolding generation_number
  generation_number-Choice g e e' =
      elim (Bool-cases (not (is_some k.ai) || not (is_some (ai_key_with_number g p.bindings)))) [
        | inl own ↦ shell g e e' (rw own) (rw own)
        | inr promoted ↦ elim (Bool-cases m.allocate) [
          | inl alloc ↦
              let same : generation_number m k g p ≡ allocate_number m p = ground arith in
              rw same (allocate_number-Choice e)
          | inr no_alloc ↦ unnumbered e (ground arith) (ground arith)
        ]
      ]

  pub choose-Choice : Choice m k p (choose m k p).0 (choose m k p).1
  unfolding choose
  choose-Choice = elim (Option-cases (number_of k.ai p.bindings)) [
    | inr (x, e) ↦ conversation x e (rw (e, choose)) (rw (e, choose))
    | inl e ↦ elim (Option-cases (number_of k.generation p.bindings)) [
      | inr (g, e') ↦ rw (e, e', choose) (generation_number-Choice g e e')
      | inl e' ↦ rw (e, e', choose) (allocate_number-Choice e)
    ]
  ]

pub Choice-none :
    {m : Mode} {k : Keys} {p q : Pass}
    → Choice m k p none q
    → (number_of k.ai p.bindings ≡ none) × (q ≡ p)
Choice-none (unnumbered a n e) = (a, e)
Choice-none (conversation x a n e) = cc
Choice-none (shell x a b n e) = cc
Choice-none (fresh x next a b c d f g n e) = cc

pub Choice-kept :
    {m : Mode} {k : Keys} {p q : Pass} {n : Option ℕ}
    → Choice m k p n q
    → (q.active ≡ p.active) × (q.bindings ≡ p.bindings)
Choice-kept (unnumbered a n e) = ground arith
Choice-kept (conversation x a n e) = ground arith
Choice-kept (shell x a b n e) = ground arith
Choice-kept (fresh x next a b c d f g n e) = ground arith

pub Choice-reserves :
    {m : Mode} {k : Keys} {p q : Pass} {n : Option ℕ}
    → Choice m k p n q
    → (i : ℕ) → contains i p.reserved ≡ true
    → contains i q.reserved ≡ true
Choice-reserves (unnumbered a n e) i h = ground arith
Choice-reserves (conversation x a n e) i h = ground arith
Choice-reserves (shell x a b n e) i h = ground arith
Choice-reserves (fresh x next a b c d f g n e) i h = ground arith

-- What a claim of `x` has done.
pub record Claimed (m : Mode) (k : Keys) (x : ℕ) (q r : Pass) : Type 0 where
  pub was_free : contains x q.active ≡ false
  pub active : r.active ≡ x ∷ q.active
  pub reserved : r.reserved ≡ q.reserved
  pub next_number : r.next_number ≡ q.next_number
  pub bindings :
      ((m.allocate ≡ false) × (r.bindings ≡ q.bindings))
      ⊎ ((g : String) × (k.generation ≡ some g)
          × (m.allocate ≡ true)
          × (r.bindings ≡ rebind g k.ai x q.bindings))
