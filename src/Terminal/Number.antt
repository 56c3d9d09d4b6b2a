-- ===== src/Terminal/Number.antt =====
-- lib/sessionkit_inventory/terminal.py: `apply_terminal_numbers`, one row at a time.
use session_kit.Base.{
  ℕ, suc, String, Bool, true, false, ◌&&◌, ◌||◌, not, List, [], ◌∷◌, ◌++◌, Option, none, some, ltb,
  leb, contains, length, if◌then◌else◌,
}
use session_kit.Base.Result.{Raising}
pub use session_kit.Base.Result.{ok, err, Result-cases, ok-injective, ◌>>=◌}
use session_kit.Base.Int.{pos}
use session_kit.Base.Assoc.{Dict, lookup, insert}
use session_kit.Json.{Value, null, bool, int, str, put, pop, is_mapping}
use session_kit.Common.Text.{Unicode}
use session_kit.Terminal.Keys.{terminal_generation_key, terminal_ai_key}
use session_kit.Terminal.Quarantine.{missing_shell_generation_is_quarantinable}
use session_kit.Terminal.Registry.{
  Registry, Retirements, numbers_of, next_free, ai_key_with_number, drop_other_generations,
  prune_bindings, expired_numbers, forget_all, stamp_all, sort_bindings,
}

pub data Error : Type 0 where
  registry_refused row_not_an_object two_sessions_one_number assertion_failed : Error

abbrev pub Result {ℓ} : Type ℓ → Type ℓ
Result A = Raising Error A

-- The local variables of the loop. `reserved` and `active` are Python sets.
pub record Pass : Type 0 where
  pub bindings : Dict ℕ
  pub next_number : ℕ
  pub reserved : List ℕ
  pub active : List ℕ

-- The two flags of a run: whether it allocates, and whether it allocates the lowest free number.
pub record Mode : Type 0 where
  pub allocate : Bool
  pub recycle : Bool

-- The two keys of a row.
pub record Keys : Type 0 where
  pub generation : Option String
  pub ai : Option String

-- `bindings.get(key) if key else None`
abbrev pub number_of : Option String → Dict ℕ → Option ℕ
number_of none d = none
number_of (some k) d = lookup k d

-- The lowest free number from `start` on, which is reserved from then on.
abbrev reserve_from : ℕ → (ℕ → ℕ) → Pass → Option ℕ × Pass
reserve_from start next p =
    let n = next_free (length p.reserved) p.reserved start in
    (some n, record p { reserved = n ∷ p.reserved; next_number = next n })

unfoldable pub allocate_number : Mode → Pass → Option ℕ × Pass
allocate_number m p =
    if m.allocate && m.recycle
    then reserve_from 1 (λ n. if leb p.next_number n then suc n else p.next_number) p
    else if m.allocate
    then reserve_from p.next_number suc p
    else (none, p)

abbrev pub is_some {ℓ} : {A : Type ℓ} → Option A → Bool
is_some none = false
is_some (some a) = true

-- The row's own shell generation has number `g`.
unfoldable pub generation_number : Mode → Keys → ℕ → Pass → Option ℕ × Pass
generation_number m k g p =
    if not (is_some k.ai) || not (is_some (ai_key_with_number g p.bindings))
    then (some g, p)
    else if not m.allocate
    then (none, p)
    else allocate_number m p

-- Which number a row gets.
unfoldable pub choose : Mode → Keys → Pass → Option ℕ × Pass
choose m k p = elim (number_of k.ai p.bindings) [
  | some n ↦ (some n, p)
  | none ↦ elim (number_of k.generation p.bindings) [
    | some g ↦ generation_number m k g p
    | none ↦ allocate_number m p
  ]
]

abbrev bind_ai : Option String → ℕ → Dict ℕ → Dict ℕ
bind_ai none n d = d
bind_ai (some key) n d = insert key n d

-- The number's bindings after an allocating run has given it to a row.
abbrev pub rebind : String → Option String → ℕ → Dict ℕ → Dict ℕ
rebind generation ai n d =
    bind_ai ai n (insert generation n (drop_other_generations n generation d))

-- The number is marked as taken; an allocating run binds it to the row's keys.
unfoldable pub claim : Mode → Keys → Option ℕ → Pass → Result Pass
claim m k none p = ok p
claim m k (some n) p =
    if contains n p.active
    then err two_sessions_one_number
    else if m.allocate
    then (elim k.generation [
      | none ↦ err assertion_failed
      | some g ↦ ok (record p { active = n ∷ p.active; bindings = rebind g k.ai n p.bindings })
    ])
    else ok (record p { active = n ∷ p.active })

abbrev optional_number : Option ℕ → Value
optional_number none = null
optional_number (some n) = int (pos n)

-- The row with its number, and without the hint of an earlier pass.
unfoldable pub with_number : Option ℕ → Value → Value
with_number n item = pop "_terminal_identity_hint" (put "terminal_number" (optional_number n) item)

unfoldable pub quarantined : String → Value → Value
quarantined reason item = pop "_terminal_identity_hint" (
    put "mutation_rejection_reason" (str reason)
      (put "mutation_allowed" (bool false) (put "terminal_number" null item)))

-- Why a row without a shell generation is left without a number, if it is.
unfoldable pub quarantine_reason : Unicode → Mode → Option String → Value → Option String
quarantine_reason u m (some key) item = none
quarantine_reason u m none item =
    if missing_shell_generation_is_quarantinable u item
    then some "missing-shell-generation"
    else if m.allocate
    then some "unprovable-generation"
    else none

module _ (u : Unicode) (digest : Value → String) (boot_id : String) (m : Mode) where
  abbrev pub keys_of : Value → Keys
  keys_of item = record {
    generation = terminal_generation_key digest boot_id item;
    ai = terminal_ai_key item;
  }

  unfoldable pub number_row : Value → Pass → Result (Value × Pass)
  number_row item p =
      if is_mapping item
      then (elim (quarantine_reason u m (keys_of item).generation item) [
        | some reason ↦ ok (quarantined reason item, p)
        | none ↦
            let (n, q) = choose m (keys_of item) p in
            claim m (keys_of item) n q >>= λ r. ok (with_number n item, r)
      ])
      else err row_not_an_object

  unfoldable pub number_rows : List Value → Pass → Result (List Value × Pass)
  number_rows [] p = ok ([], p)
  number_rows (item ∷ rest) p =
      number_row item p >>= λ r. number_rows rest r.1 >>= λ s. ok (r.0 ∷ s.0, s.1)

abbrev pub max_of : List ℕ → ℕ
max_of [] = 0
max_of (n ∷ ns) = let m = max_of ns in if ltb m n then n else m

-- `(bound | previously_bound) - active_numbers`
abbrev pub without : List ℕ → List ℕ → List ℕ
without [] active = []
without (n ∷ ns) active =
    let rest = without ns active in if contains n active then rest else n ∷ rest

-- The ledger after a recycling run: numbers that died are stamped, live ones lose their stamp.
unfoldable pub retire : ℕ → List ℕ → Pass → Retirements → Retirements
retire now previously_bound p retired =
    forget_all p.active
      (stamp_all now (without (numbers_of p.bindings ++ previously_bound) p.active) retired)

-- `next_number` stays above every stored binding.
unfoldable pub final_next : Bool → Pass → ℕ
final_next recycle p =
    let top = max_of (numbers_of p.bindings) in
    if recycle && leb p.next_number top then suc top else p.next_number

pub record Outcome : Type 0 where
  pub sessions : List Value
  pub registry : Registry
  pub retired : Option Retirements

-- The loop's variables before the first row, once the quarantines that are over have been pruned.
unfoldable pub start_pass : Dict ℕ → ℕ → Pass
start_pass d next = record {
  bindings = d;
  next_number = next;
  reserved = numbers_of d;
  active = [];
}

-- `recycle = allocate and retired is not None`
abbrev pub mode_of : Bool → Option Retirements → Mode
mode_of allocate retired = record { allocate = allocate; recycle = allocate && is_some retired }

-- A run. `checked` is what `validate_registry` returns, which raises at `none`; `retired` is the
-- ledger, if the run has one. Times are whole numbers of one unit.
module _ (u : Unicode) (digest : Value → String) (boot_id : String) (now quarantine : ℕ) where
  -- The numbers that this run frees.
  abbrev pub freed : Bool → Option Retirements → List ℕ
  freed allocate none = []
  freed allocate (some retired) = if allocate then expired_numbers now quarantine retired else []

  abbrev pub kept_bindings : Bool → Option Retirements → Registry → Dict ℕ
  kept_bindings allocate retired r = prune_bindings (freed allocate retired) r.bindings

  abbrev ledger : Bool → List ℕ → List ℕ → Pass → Option Retirements → Option Retirements
  ledger allocate expired previously_bound p none = none
  ledger allocate expired previously_bound p (some retired) =
      if allocate
      then some (retire now previously_bound p (forget_all expired retired))
      else some retired

  -- What a run leaves behind, once its rows are numbered.
  unfoldable pub outcome : Bool → Option Retirements → Registry → List Value → Pass → Outcome
  outcome allocate retired r sessions p = record {
    sessions = sessions;
    registry = record {
      boot_id = boot_id;
      next_number = final_next (mode_of allocate retired).recycle p;
      bindings = sort_bindings p.bindings;
    };
    retired = ledger allocate (freed allocate retired) (numbers_of r.bindings) p retired;
  }

  unfoldable pub apply_terminal_numbers :
      Bool → Option Retirements → List Value → Option Registry → Result Outcome
  apply_terminal_numbers allocate retired rows checked = elim checked [
    | none ↦ err registry_refused
    | some r ↦
        number_rows u digest boot_id (mode_of allocate retired) rows
          (start_pass (kept_bindings allocate retired r) r.next_number)
        >>= λ s. ok (outcome allocate retired r s.0 s.1)
  ]
