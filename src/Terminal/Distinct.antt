-- ===== src/Terminal/Distinct.antt =====
-- terminal.py, `apply_terminal_numbers`: the numbers that the rows of a run show.
use session_kit.Base.{
  some, ℕ, ◌≡◌, refl, String, Bool, true, false, List, Option, arith, contains, IsDistinct,
}
use session_kit.Json.{Value}
use session_kit.Common.Text.{Unicode}
use session_kit.Terminal.Number.{ok, Pass, Mode, Outcome, outcome, apply_terminal_numbers}
use session_kit.Terminal.Registry.{Registry, Retirements}
use session_kit.Terminal.Rows.{row_numbers}
use session_kit.Terminal.Steps.{skipped, numbered, Rows, done, step, apply_terminal_numbers-Ran}
use session_kit.Terminal.Choices.{Choice-kept}

module _ (u : Unicode) (digest : Value → String) (boot_id : String) (m : Mode) where
  Rows-new :
      {rows rows' : List Value} {p p' : Pass}
      → Rows u digest boot_id m rows p rows' p'
      → IsDistinct (row_numbers rows')
        × ((n : ℕ) → contains n p.active ≡ true → contains n (row_numbers rows') ≡ false)
  unfolding row_numbers
  Rows-new done = (tt, λ n h. refl)
  Rows-new (step (skipped w e same) rest) =
      let (distinct, new) = Rows-new rest in rw (e) (distinct, λ n h. new n (rw same h))
  Rows-new (step (numbered x q e c d) rest) =
      let (distinct, new) = Rows-new rest in
      rw (e) ((ground (arith, new x), distinct), λ n h. ground (arith, new n, Choice-kept c))

-- In every accepted run the numbers that the rows show are all different.
pub apply_terminal_numbers-IsDistinct :
    (u : Unicode) (digest : Value → String) (boot_id : String) (now quarantine : ℕ)
    (allocate : Bool) (retired : Option Retirements) (rows : List Value) (r : Registry)
    (o : Outcome)
    → apply_terminal_numbers u digest boot_id now quarantine allocate retired rows (some r) ≡ ok o
    → IsDistinct (row_numbers o.sessions)
unfolding outcome
apply_terminal_numbers-IsDistinct u digest boot_id now quarantine allocate retired rows r o h =
    let ran =
      apply_terminal_numbers-Ran u digest boot_id now quarantine allocate retired rows r o h in
    rw (ran.result, outcome) (Rows-new u digest boot_id _ ran.rows_done).0
