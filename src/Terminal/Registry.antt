-- ===== src/Terminal/Registry.antt =====
-- terminal.py: the registry of terminal numbers, the retirement ledger beside it, and the search
-- for a free number.
use Prim.Native.String.{compare}
use Prim.Native.Nat.{Ordering}
use session_kit.Base.{
  ℕ, zero, suc, ◌+◌, String, Bool, ◌&&◌, not, List, [], ◌∷◌, Option, ◌==◌, ◌=~◌, leb, contains,
  keep_if, any, find?, if◌then◌else◌, map,
}
use session_kit.Base.Assoc.{Dict}
use session_kit.Terminal.Keys.{is_ai, is_generation}

pub record Registry : Type 0 where
  pub boot_id : String
  pub next_number : ℕ
  pub bindings : Dict ℕ

-- A retired number and the moment its last session disappeared.
abbrev pub Retirements : Type 0
Retirements = List (ℕ × ℕ)

-- `set(bindings.values())`
abbrev pub numbers_of : Dict ℕ → List ℕ
numbers_of = map (λ e. e.1)

-- `retired.pop(number, None)`
abbrev pub forget : ℕ → Retirements → Retirements
forget n = keep_if (λ e. not (e.0 == n))

abbrev pub is_retired : ℕ → Retirements → Bool
is_retired n = any (λ e. e.0 == n)

-- `retired.setdefault(number, now)`
abbrev pub stamp : ℕ → ℕ → Retirements → Retirements
stamp now n retired = if is_retired n retired then retired else (n, now) ∷ retired

abbrev pub stamp_all : ℕ → List ℕ → Retirements → Retirements
stamp_all now [] retired = retired
stamp_all now (n ∷ ns) retired = stamp_all now ns (stamp now n retired)

abbrev pub forget_all : List ℕ → Retirements → Retirements
forget_all [] retired = retired
forget_all (n ∷ ns) retired = forget_all ns (forget n retired)

-- The numbers whose quarantine is over: `now - stamp >= quarantine_seconds`.
abbrev pub expired_numbers : ℕ → ℕ → Retirements → List ℕ
expired_numbers now quarantine [] = []
expired_numbers now quarantine (e ∷ retired) =
    let rest = expired_numbers now quarantine retired in
    if leb (e.1 + quarantine) now then e.0 ∷ rest else rest

-- `[k for k, v in bindings.items() if v in expired]` are deleted.
abbrev pub prune_bindings : List ℕ → Dict ℕ → Dict ℕ
prune_bindings expired = keep_if (λ e. not (contains e.1 expired))

-- The conversation that a number is promoted to.
abbrev pub ai_key_with_number : ℕ → Dict ℕ → Option (String × ℕ)
ai_key_with_number n = find? (λ e. is_ai e.0 && (e.1 == n))

-- Every other shell generation loses the number.
abbrev pub drop_other_generations : ℕ → String → Dict ℕ → Dict ℕ
drop_other_generations n key =
    keep_if (λ e. not (is_generation e.0 && (e.1 == n) && not (e.0 =~ key)))

-- `while number in reserved: number += 1`
unfoldable pub next_free : ℕ → List ℕ → ℕ → ℕ
next_free zero reserved n = n
next_free (suc fuel) reserved n =
    let rest = next_free fuel reserved (suc n) in if contains n reserved then rest else n

-- `dict(sorted(bindings.items()))`
abbrev pub insert_sorted : String × ℕ → Dict ℕ → Dict ℕ
insert_sorted e [] = e ∷ []
insert_sorted e (f ∷ d) =
    let rest = insert_sorted e d in
    elim (compare e.0 f.0) [ Ordering.gt ↦ f ∷ rest | _ ↦ e ∷ f ∷ d ]

abbrev pub sort_bindings : Dict ℕ → Dict ℕ
sort_bindings [] = []
sort_bindings (e ∷ d) = insert_sorted e (sort_bindings d)
