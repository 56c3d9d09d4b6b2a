-- ===== src/Terminal/Bounds.antt =====
-- terminal.py, `apply_terminal_numbers`: `next_number` and the numbers in use.
use session_kit.Base.{
  ℕ, ◌≤◌, ◌<◌, ◌≡◌, String, Bool, List, [], ◌∷◌, Option, none, some, arith, All, All-keep_if,
  All-map,
}
use session_kit.Base.Assoc.{Dict, All-lookup}
use session_kit.Json.{Value}
use session_kit.Common.Text.{Unicode}
use session_kit.Terminal.Bindings.{Claimed-All, sort_bindings-All}
use session_kit.Terminal.Number.{
  ok, Pass, Mode, Keys, Outcome, outcome, apply_terminal_numbers, start_pass, number_of, final_next,
  max_of, mode_of,
}
use session_kit.Terminal.Registry.{Registry, Retirements, numbers_of}
use session_kit.Terminal.Steps.{skipped, numbered, Rows, done, step, apply_terminal_numbers-Ran}
use session_kit.Terminal.Choices.{Choice, conversation, shell, fresh, unnumbered, Claimed}

abbrev pub InRange : ℕ → String × ℕ → Type 0
InRange next e = (0 < e.1) × (e.1 < next)

-- The numbers of a sound registry are positive and below `next_number`, as the validator asks.
pub record IsSound (r : Registry) : Type 0 where
  pub positive : 0 < r.next_number
  pub in_range : All (InRange r.next_number) r.bindings

record Inv (p : Pass) : Type 0 where
  positive : 0 < p.next_number
  in_range : All (InRange p.next_number) p.bindings

own_in_range :
    (k : Option String) (x : ℕ) (p : Pass)
    → Inv p
    → number_of k p.bindings ≡ some x
    → (0 < x) × (x < p.next_number)
own_in_range none x p v e = cc
own_in_range (some k) x p v e = All-lookup (InRange p.next_number) k x p.bindings v.in_range e

Choice-in_range :
    {m : Mode} {k : Keys} {x : ℕ} {p q : Pass}
    → Inv p
    → Choice m k p (some x) q
    → (0 < x) × (x < q.next_number) × (p.next_number ≤ q.next_number)
Choice-in_range v (unnumbered a n e) = cc
Choice-in_range {k = k} {p = p} v (conversation y a n e) = ground (arith, own_in_range k.ai y p v)
Choice-in_range {k = k} {p = p} v (shell y a b n e) =
    ground (arith, own_in_range k.generation y p v)
Choice-in_range v (fresh y next a b c f g i n e) = ground (arith, v.positive)

step-Inv :
    {m : Mode} {k : Keys} {x : ℕ} {p q r : Pass}
    → Inv p
    → Choice m k p (some x) q
    → Claimed m k x q r
    → Inv r × (p.next_number ≤ r.next_number)
step-Inv {x = x} {p = p} {q = q} {r = r} v c cl =
    let (pos, below, grown) = Choice-in_range v c in
    (
      record {
        positive = omega (arith, v.positive, cl.next_number);
        in_range = rw cl.next_number (
            Claimed-All (InRange q.next_number) c cl (λ key. (pos, below))
              (All-map (InRange p.next_number) p.bindings (λ e h. (h.0, omega arith)) v.in_range));
      },
      omega (arith, cl.next_number),
    )

Rows-Inv :
    (u : Unicode) (digest : Value → String) (boot_id : String) (m : Mode) {rows rows' : List Value}
    {p p' : Pass}
    → Rows u digest boot_id m rows p rows' p'
    → Inv p
    → Inv p' × (p.next_number ≤ p'.next_number)
Rows-Inv u digest boot_id m done v = (v, omega arith)
Rows-Inv u digest boot_id m (step (skipped w e same) rest) v =
    rw (← same) (Rows-Inv u digest boot_id m rest (rw same v))
Rows-Inv u digest boot_id m (step (numbered x q e c cl) rest) v =
    let (v', grown) = step-Inv v c cl in
    let (w, more) = Rows-Inv u digest boot_id m rest v' in (w, omega arith)

max_of-lt : (d : Dict ℕ) (b : ℕ) → 0 < b → All (InRange b) d → max_of (numbers_of d) < b
max_of-lt [] b h a = h
max_of-lt (e ∷ d) b h a = ground (arith, max_of-lt d b h a.1)

final_next-next_number : (recycle : Bool) (p : Pass) → Inv p → final_next recycle p ≡ p.next_number
unfolding final_next
final_next-next_number recycle p v =
    ground (arith, max_of-lt p.bindings p.next_number v.positive v.in_range)

-- A run on a sound registry leaves a sound one, and never lowers `next_number`: no later run can
-- refuse the registry because a number would be used again.
pub apply_terminal_numbers-IsSound :
    (u : Unicode) (digest : Value → String) (boot_id : String) (now quarantine : ℕ)
    (allocate : Bool) (retired : Option Retirements) (rows : List Value) (r : Registry)
    (o : Outcome)
    → IsSound r
    → apply_terminal_numbers u digest boot_id now quarantine allocate retired rows (some r) ≡ ok o
    → IsSound o.registry × (r.next_number ≤ o.registry.next_number)
unfolding outcome start_pass
apply_terminal_numbers-IsSound u digest boot_id now quarantine allocate retired rows r o sound h =
    let ran =
      apply_terminal_numbers-Ran u digest boot_id now quarantine allocate retired rows r o h in
    let (v, grown) = Rows-Inv u digest boot_id _ ran.rows_done (record {
      positive = sound.positive;
      in_range = All-keep_if (InRange r.next_number) _ r.bindings sound.in_range;
    }) in
    let e = final_next-next_number (mode_of allocate retired).recycle ran.last v in
    rw ran.result (
      record {
        positive = rw e v.positive;
        in_range =
            rw e (sort_bindings-All (InRange ran.last.next_number) ran.last.bindings v.in_range);
      },
      rw e grown,
    )
