-- ===== src/Origins/Store.antt =====
-- lib/sessionkit_inventory/origins.py: the store of stamps, and the calls that change it. A call holds
-- the store's lock. A raised error is `none`. `size` is the length of a document as it is written.
use session_kit.Base.{
  ℕ, ◌+◌, ◌-◌, String, Bool, true, false, ◌&&◌, ◌||◌, not, List, [], ◌∷◌, Option, none, some,
  length, keep_if, any, ltb, ◌==◌, ◌=~◌, if◌then◌else◌,
}
use session_kit.Base.Int.{ℤ, pos, pos_part, neg_part}
use session_kit.Base.Assoc.{insert}
use session_kit.Json.{Value, str}
use session_kit.Common.{is_digest}
use session_kit.Origins.Stamps.{
  File, Instance, Stamp, Stamps, document, document_of, is_origin, read_origins, text,
}

-- A call's arguments, what `int` gives for the three variables of the environment (0 for one that is
-- missing or no number), the clock, and the fresh `token_hex(32)`.
pub record Stamping : Type 0 where
  pub shpool_id : Value
  pub origin : Value
  pub shell_pid : ℤ
  pub shell_start_ticks : ℤ
  pub started_at_unix_ms : ℤ
  pub now : ℕ
  pub generation : String

-- `value > 0`
abbrev pub is_above : ℤ → Bool
is_above z = ltb 0 (pos_part z)

abbrev pub is_named : Value → Bool
is_named v = not (text v =~ "")

abbrev pub instance_named : Stamping → Instance
instance_named c = record {
  shell_pid = pos_part c.shell_pid;
  shell_start_ticks = pos_part c.shell_start_ticks;
  started_at_unix_ms = pos_part c.started_at_unix_ms;
}

abbrev pub stamp_named : Stamping → Stamp
stamp_named c = record {
  origin = text c.origin;
  at_unix_ms = pos c.now;
  record_generation = c.generation;
  instance_of = some (instance_named c);
}

unfoldable pub is_proper : Stamping → Bool
is_proper c =
    is_named c.shpool_id
    && is_origin c.origin
    && is_above c.shell_pid
    && is_above c.shell_start_ticks
    && is_above c.started_at_unix_ms

-- The document that is written.
unfoldable pub record_origin : Stamping → File → Option Value
record_origin c file =
    if is_proper c
    then elim (read_origins file) [
      | none ↦ none
      | some (stamps, trusted) ↦
          if trusted
          then some (document_of (insert (text c.shpool_id) (stamp_named c) stamps))
          else none
    ]
    else none

abbrev pub written : (Value → ℕ) → Value → File
written size v = document (size v) v

abbrev pub grace_ms : ℕ
grace_ms = 120000

-- `at_unix_ms > now - ORIGIN_PRUNE_GRACE_MS`
abbrev pub stamped_after : ℕ → Stamp → Bool
stamped_after now s = ltb (now + neg_part s.at_unix_ms) (pos_part s.at_unix_ms + grace_ms)

-- A listing of the session manager, the clock, and the generations that were captured before it.
pub record Listing : Type 0 where
  pub active : List String
  pub now : ℕ
  pub captured : List (String × String)

abbrev pub is_captured : Listing → String → String → Bool
is_captured l id generation = any (λ c. c.0 =~ id && c.1 =~ generation) l.captured

abbrev pub keeps : Listing → String × Stamp → Bool
keeps l e =
    any (λ id. id =~ e.0) l.active
    || stamped_after l.now e.1
    || not (is_captured l e.0 e.1.record_generation)

abbrev pub removed : Listing → Stamps → ℕ
removed l stamps = length stamps - length (keep_if (keeps l) stamps)

abbrev pub is_empty {ℓ} : {A : Type ℓ} → List A → Bool
is_empty [] = true
is_empty (x ∷ xs) = false

-- `prune_origins`, but for the markers: how many stamps it removed, and what is stored then.
unfoldable pub prune_origins : (Value → ℕ) → Listing → File → Option (ℕ × File)
prune_origins size l file =
    if is_empty l.active || is_empty l.captured then some (0, file) else elim (read_origins file) [
      | none ↦ none
      | some (stamps, trusted) ↦
          if not trusted || removed l stamps == 0
          then some (0, file)
          else some (removed l stamps, written size (document_of (keep_if (keeps l) stamps)))
    ]

unfoldable pub capture : Stamps × Bool → List (String × String)
capture (stamps, false) = []
capture ([], true) = []
capture ((id, s) ∷ stamps, true) =
    let rest = capture (stamps, true) in
    if is_digest (str s.record_generation) then (id, s.record_generation) ∷ rest else rest

unfoldable pub capture_origin_generations : File → Option (List (String × String))
capture_origin_generations file = elim (read_origins file) [
  | none ↦ none
  | some store ↦ some (capture store)
]
