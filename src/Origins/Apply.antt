-- ===== src/Origins/Apply.antt =====
-- lib/sessionkit_inventory/origins.py: `apply_session_origins`, which says of every row who asked for
-- the session.
use Prim.Native.Char.{Char}
use session_kit.Base.{String, Bool, ◌&&◌, not, List, Option, none, some, map, if◌then◌else◌}
use session_kit.Base.Int.{pos}
use session_kit.Base.Assoc.{lookup}
use session_kit.Json.{Value, int, str, get, put, pop, is_mapping, is_str, is_true, equal}
use session_kit.Origins.Stamps.{Instance, Stamp, Stamps, text, File, read_origins}
use session_kit.Origins.Bounce.{Directory, provider_is_bouncing, clear_settled_bounce_markers}

-- The row is the session instance that was stamped.
abbrev pub is_instance_of : Instance → Value → Bool
is_instance_of i row =
    is_mapping (get "shpool_shell" row)
    && equal (get "pid" (get "shpool_shell" row)) (int (pos i.shell_pid))
    && equal (get "process_start_ticks" (get "shpool_shell" row)) (int (pos i.shell_start_ticks))
    && equal (get "started_at_unix_ms" row) (int (pos i.started_at_unix_ms))

abbrev pub proven_origin : Value → Stamp → Option String
proven_origin row s = elim s.instance_of [
  | none ↦ none
  | some i ↦ if is_instance_of i row then some s.origin else none
]

-- `_recorded_origin_for_row`
unfoldable pub recorded_origin : Value → Stamps → Option String
recorded_origin row stamps =
    if is_str (get "shpool_id_raw" row)
    then elim (lookup (text (get "shpool_id_raw" row)) stamps) [
      | none ↦ none
      | some s ↦ proven_origin row s
    ]
    else none

-- `stamped`: nothing, unless the store was understood.
abbrev pub stamped_origin : Stamps × Bool → Value → Option String
stamped_origin store row = if store.1 then recorded_origin row store.0 else none

abbrev pub is_driven : Bool → Bool → Value → Bool
is_driven trusted bouncing row = trusted && is_true (get "machine_driven" row) && not bouncing

unfoldable pub apply_row : Stamps × Bool → Bool → Value → Value
apply_row store bouncing row =
    if is_mapping row
    then elim (stamped_origin store row) [
      | some origin ↦
          put "origin_recorded" (str origin) (put "origin" (str origin) (pop "origin_recorded" row))
      | none ↦
          put "origin" (str (if is_driven store.1 bouncing row then "machine" else "human"))
            (pop "origin_recorded" row)
    ]
    else row

-- The rows that come out, none where the store raises, and what is left of the markers; `clears` says
-- that they may be removed.
unfoldable pub apply_session_origins :
    (Char → Bool)
    → Bool
    → List String
    → File
    → List Value
    → Directory
    → Option (List Value) × Directory
apply_session_origins alnum clears captured file rows directory =
    let left =
      if clears then clear_settled_bounce_markers alnum rows captured directory else directory in
    (
      elim (read_origins file) [
        | none ↦ none
        | some store ↦ some (
            map
              (λ row.
                apply_row store (provider_is_bouncing alnum left (get "shpool_id_raw" row)) row)
              rows)
      ],
      left,
    )
