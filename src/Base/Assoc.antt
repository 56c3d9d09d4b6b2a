-- ===== src/Base/Assoc.antt =====
-- A Python dict with text keys, in insertion order.
use Prim.Native.String.{String}
use mathlib.Core.Path.{◌≡◌, refl, subst}
use mathlib.Core.List.{List, [], ◌∷◌}
use mathlib.Core.Option.{Option, none, some}
use native.Mathlib.Omega.{arith}
use session_kit.Base.Tests.{if◌then◌else◌}
use session_kit.Base.Text.{◌=~◌, string_dec}
use session_kit.Base.Lists.{All}

abbrev pub Dict {ℓ} : Type ℓ → Type ℓ
Dict V = List (String × V)

module _ {ℓ} {V : Type ℓ} where
  -- `d.get(k)`
  abbrev pub lookup : String → Dict V → Option V
  lookup k [] = none
  lookup k ((j, v) ∷ d) = let rest = lookup k d in if j =~ k then some v else rest

  -- `d[k] = v`
  abbrev pub insert : String → V → Dict V → Dict V
  insert k v [] = (k, v) ∷ []
  insert k v (e ∷ d) = let rest = insert k v d in if e.0 =~ k then (k, v) ∷ d else e ∷ rest

  -- `d.pop(k, None)`, `del d[k]`
  abbrev pub erase : String → Dict V → Dict V
  erase k [] = []
  erase k (e ∷ d) = let rest = erase k d in if e.0 =~ k then rest else e ∷ rest

  pub lookup-insert :
      (k j : String) (v : V) (d : Dict V)
      → lookup j (insert k v d) ≡ (if k =~ j then some v else lookup j d)
  lookup-insert k j v [] = refl
  lookup-insert k j v (e ∷ d) = ground (arith, lookup-insert k j v d)

  pub lookup-erase :
      (k j : String) (d : Dict V) → lookup j (erase k d) ≡ (if k =~ j then none else lookup j d)
  lookup-erase k j [] = ground arith
  lookup-erase k j (e ∷ d) = ground (arith, lookup-erase k j d)

  -- A property of every entry is one of an entry that is found, and is kept by the updates.
  module _ {κ} (P : String × V → Type κ) where
    pub All-lookup : (k : String) (v : V) (d : Dict V) → All P d → lookup k d ≡ some v → P (k, v)
    All-lookup k v [] h e = cc
    All-lookup k v ((j, w) ∷ d) h e =
        elim (string_dec j k) as (λ b. b ≡ string_dec j k → P (k, v)) [
          | yes hit ↦ λ b. subst (λ x. P x) (ground arith) h.0
          | no miss ↦ λ b. All-lookup k v d h.1 (ground arith)
        ]
          refl

    pub All-insert : (k : String) (v : V) (d : Dict V) → All P d → P (k, v) → All P (insert k v d)
    All-insert k v [] h p = (p, tt)
    All-insert k v (e ∷ d) h p = ground (arith, All-insert k v d h.1 p)
