-- ===== src/Terminal/Bindings.antt =====
-- terminal.py: what binding a number to a row's keys, pruning and sorting do to the entries of
-- the registry.
use session_kit.Base.{
  ℕ, ◌≡◌, ◌⊎◌, inl, inr, String, true, false, [], ◌∷◌, Option, none, some, arith, All, All-keep_if,
}
use session_kit.Base.Assoc.{Dict, All-insert}
use session_kit.Terminal.Number.{rebind, Mode, Keys, Pass}
use session_kit.Terminal.Choices.{Choice, Choice-kept, Claimed}
use session_kit.Terminal.Registry.{insert_sorted, sort_bindings}

module _ {κ} (P : String × ℕ → Type κ) where
  -- A property of the number alone, or of every key with this number.
  pub rebind-All :
      (g : String) (ai : Option String) (x : ℕ) (d : Dict ℕ)
      → ((k : String) → P (k, x))
      → All P d
      → All P (rebind g ai x d)
  rebind-All g none x d f h = All-insert P g x _ (All-keep_if P _ d h) (f g)
  rebind-All g (some k) x d f h =
      All-insert P k x _ (All-insert P g x _ (All-keep_if P _ d h) (f g)) (f k)

  insert_sorted-All : (e : String × ℕ) (d : Dict ℕ) → P e → All P d → All P (insert_sorted e d)
  insert_sorted-All e [] p h = (p, tt)
  insert_sorted-All e (f ∷ d) p h = ground (arith, insert_sorted-All e d p h.1)

  pub sort_bindings-All : (d : Dict ℕ) → All P d → All P (sort_bindings d)
  sort_bindings-All [] h = h
  sort_bindings-All (e ∷ d) h = insert_sorted-All e (sort_bindings d) h.0 (sort_bindings-All d h.1)

  -- After a row the bindings hold what they held, and the row's number under its keys.
  pub Claimed-All :
      {m : Mode} {k : Keys} {x : ℕ} {p q r : Pass}
      → Choice m k p (some x) q
      → Claimed m k x q r
      → ((key : String) → P (key, x))
      → All P p.bindings
      → All P r.bindings
  Claimed-All {m = m} {k = k} {x = x} {p = p} {q = q} {r = r} c cl f h = claimed_by cl.bindings
    where
      before : All P q.bindings
      before = rw ((Choice-kept c).1) h

      claimed_by :
          ((m.allocate ≡ false) × (r.bindings ≡ q.bindings))
            ⊎ ((g : String) × (k.generation ≡ some g)
                × (m.allocate ≡ true)
                × (r.bindings ≡ rebind g k.ai x q.bindings))
          → All P r.bindings
      claimed_by (inl (_, e)) = rw e before
      claimed_by (inr (g, _, _, e)) = rw e (rebind-All g k.ai x q.bindings f before)
