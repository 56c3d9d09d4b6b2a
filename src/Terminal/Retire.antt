-- ===== src/Terminal/Retire.antt =====
-- terminal.py, `apply_terminal_numbers`: what a recycling run writes to the retirement ledger.
use session_kit.Base.{
  ℕ, ◌≡◌, refl, String, Bool, true, false, ◌&&◌, ◌||◌, not, List, [], ◌∷◌, ◌++◌, some, arith,
  contains, any, ◌==◌,
}
use session_kit.Base.Assoc.{Dict}
use session_kit.Json.{Value}
use session_kit.Common.Text.{Unicode}
use session_kit.Terminal.Number.{
  ok, Pass, Mode, Outcome, outcome, start_pass, apply_terminal_numbers, retire, without, freed,
}
use session_kit.Terminal.Registry.{
  Registry, Retirements, numbers_of, is_retired, forget, forget_all, stamp, stamp_all,
  insert_sorted, sort_bindings,
}
use session_kit.Terminal.Rows.{row_numbers}
use session_kit.Terminal.Steps.{skipped, numbered, Rows, done, step, apply_terminal_numbers-Ran}
use session_kit.Terminal.Choices.{Choice-kept}

is_retired-forget :
    (n k : ℕ) (l : Retirements) → is_retired n (forget k l) ≡ (not (n == k) && is_retired n l)
is_retired-forget n k [] = ground arith
is_retired-forget n k (e ∷ l) = ground (arith, is_retired-forget n k l)

is_retired-forget_all :
    (n : ℕ) (ks : List ℕ) (l : Retirements)
    → is_retired n (forget_all ks l) ≡ (not (contains n ks) && is_retired n l)
is_retired-forget_all n [] l = refl
is_retired-forget_all n (k ∷ ks) l =
    ground (arith, is_retired-forget_all n ks (forget k l), is_retired-forget n k l)

is_retired-stamp_all :
    (n now : ℕ) (ks : List ℕ) (l : Retirements)
    → is_retired n (stamp_all now ks l) ≡ (contains n ks || is_retired n l)
is_retired-stamp_all n now [] l = refl
is_retired-stamp_all n now (k ∷ ks) l =
    ground (arith, is_retired-stamp_all n now ks (stamp now k l))

contains-without :
    (n : ℕ) (ns active : List ℕ)
    → contains n (without ns active) ≡ (not (contains n active) && contains n ns)
contains-without n [] active = ground arith
contains-without n (k ∷ ns) active = ground (arith, contains-without n ns active)

contains-append :
    (n : ℕ) (xs ys : List ℕ) → contains n (xs ++ ys) ≡ (contains n xs || contains n ys)
contains-append n [] ys = refl
contains-append n (x ∷ xs) ys = ground (arith, contains-append n xs ys)

-- The ledger holds the number with this very stamp.
abbrev pub has_stamp : ℕ → ℕ → Retirements → Bool
has_stamp n s = any (λ e. (e.0 == n) && (e.1 == s))

has_stamp-forget :
    (n s k : ℕ) (l : Retirements)
    → (n == k) ≡ false
    → has_stamp n s l ≡ true
    → has_stamp n s (forget k l) ≡ true
has_stamp-forget n s k [] h e = e
has_stamp-forget n s k (x ∷ l) h e = ground (arith, has_stamp-forget n s k l h)

has_stamp-forget_all :
    (n s : ℕ) (ks : List ℕ) (l : Retirements)
    → contains n ks ≡ false
    → has_stamp n s l ≡ true
    → has_stamp n s (forget_all ks l) ≡ true
has_stamp-forget_all n s [] l h e = e
has_stamp-forget_all n s (k ∷ ks) l h e =
    has_stamp-forget_all n s ks (forget k l) (ground arith)
      (has_stamp-forget n s k l (ground arith) e)

has_stamp-stamp_all :
    (n s now : ℕ) (ks : List ℕ) (l : Retirements)
    → has_stamp n s l ≡ true
    → has_stamp n s (stamp_all now ks l) ≡ true
has_stamp-stamp_all n s now [] l e = e
has_stamp-stamp_all n s now (k ∷ ks) l e =
    has_stamp-stamp_all n s now ks (stamp now k l) (ground arith)

contains-insert_sorted :
    (n : ℕ) (e : String × ℕ) (d : Dict ℕ)
    → contains n (numbers_of (insert_sorted e d)) ≡ ((n == e.1) || contains n (numbers_of d))
contains-insert_sorted n e [] = refl
contains-insert_sorted n e (f ∷ d) = ground (arith, contains-insert_sorted n e d)

contains-sort_bindings :
    (n : ℕ) (d : Dict ℕ) → contains n (numbers_of (sort_bindings d)) ≡ contains n (numbers_of d)
contains-sort_bindings n [] = refl
contains-sort_bindings n (e ∷ d) =
    ground (arith, contains-insert_sorted n e (sort_bindings d), contains-sort_bindings n d)

module _ (u : Unicode) (digest : Value → String) (boot_id : String) (m : Mode) (n : ℕ) where
  -- The active numbers at the end are those that the rows show.
  Rows-active :
      {rows rows' : List Value} {p p' : Pass}
      → Rows u digest boot_id m rows p rows' p'
      → contains n p'.active ≡ (contains n (row_numbers rows') || contains n p.active)
  unfolding row_numbers
  Rows-active done = refl
  Rows-active (step (skipped w e same) rest) = ground (arith, Rows-active rest)
  Rows-active (step (numbered x q e c cl) rest) = ground (arith, Rows-active rest, Choice-kept c)

-- After a recycling run the ledger holds exactly the numbers that no row shows and that were bound
-- before the run, are bound after it, or were still in quarantine; and a number that was still in
-- quarantine and comes back on no row keeps its stamp.
pub apply_terminal_numbers-retires :
    (u : Unicode) (digest : Value → String) (boot_id : String) (now quarantine : ℕ)
    (l : Retirements) (rows : List Value) (r : Registry) (o : Outcome)
    → apply_terminal_numbers u digest boot_id now quarantine true (some l) rows (some r) ≡ ok o
    → let kept = forget_all (freed u digest boot_id now quarantine true (some l)) l in
      (l' : Retirements) × (o.retired ≡ some l')
      × ((n : ℕ)
          → is_retired n l' ≡ (
              not (contains n (row_numbers o.sessions))
              && (contains n (numbers_of o.registry.bindings)
                  || contains n (numbers_of r.bindings)
                  || is_retired n kept)))
      × ((n s : ℕ)
          → contains n (row_numbers o.sessions) ≡ false
          → has_stamp n s kept ≡ true
          → has_stamp n s l' ≡ true)
unfolding outcome retire start_pass
apply_terminal_numbers-retires u digest boot_id now quarantine l rows r o h =
    let ran = apply_terminal_numbers-Ran u digest boot_id now quarantine true (some l) rows r o h in
    let kept = forget_all (freed u digest boot_id now quarantine true (some l)) l in
    let dead = without (numbers_of ran.last.bindings ++ numbers_of r.bindings) ran.last.active in
    let active = λ (n : ℕ). Rows-active u digest boot_id _ n ran.rows_done in
    rw ran.result (
      forget_all ran.last.active (stamp_all now dead kept),
      refl,
      λ n. ground (
        arith,
        is_retired-forget_all n ran.last.active (stamp_all now dead kept),
        is_retired-stamp_all n now dead kept,
        contains-without n (numbers_of ran.last.bindings ++ numbers_of r.bindings) ran.last.active,
        contains-append n (numbers_of ran.last.bindings) (numbers_of r.bindings),
        contains-sort_bindings n ran.last.bindings,
        active n,
      ),
      λ n s shown e.
          has_stamp-forget_all n s ran.last.active _ (ground (arith, active n))
            (has_stamp-stamp_all n s now dead kept e),
    )
