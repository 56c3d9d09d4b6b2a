-- ===== src/Origins/Tests.antt =====
-- lib/sessionkit_inventory/origins.py: two sessions, a sweep and a restart.
use Prim.Native.Char.{Char, code}
use session_kit.Base.{
  ℕ, ◌≤◌, arith, ◌≡◌, refl, inl, inr, any, ◌||◌, ◌&&◌, ◌=~◌, ◌==◌, String, Bool, true, false, not,
  List, [], ◌∷◌, none, some, string_dec,
}
use session_kit.Base.Int.{pos, negsuc}
use session_kit.Json.{Value, Fields, bool, int, str, object, field, end, get, put, pop, equal}
use session_kit.Common.{is_digest, only}
use session_kit.Common.Text.{contains_text}
use session_kit.Origins.Store.{
  Stamping, record_origin, is_proper, Listing, prune_origins, capture, capture_origin_generations,
  written, stamped_after, is_captured,
}
use session_kit.Origins.Stamps.{
  Stamp, Stamps, max_origin_bytes, missing, document, read_origins, read_entries, validated_pair,
  document_of,
}
use session_kit.Origins.Sound.{AllSound, validated_pair-AllSound}
use session_kit.Origins.Calls.{
  Call, records, prunes, after, after_all, changed_all, AllFit, Reads, after_all-Reads,
}
use session_kit.Origins.Bounce.{
  is_marker_of, is_special, Marker, entries, regular, bounce_session_id, provider_is_bouncing,
  clear_settled_bounce_markers, capture_bounce_receipts,
}
use session_kit.Origins.Apply.{is_instance_of, recorded_origin, apply_row, apply_session_origins}
use session_kit.Origins.Kept.{apply_row-stamped}
use session_kit.Origins.Asked.{provider_is_bouncing-kept}

abbrev token : String
token = "00112233445566778899aabbccddeeff00112233445566778899aabbccddeeff"

abbrev stamping : String → String → ℕ → Stamping
stamping id origin pid = record {
  shpool_id = str id;
  origin = str origin;
  shell_pid = pos pid;
  shell_start_ticks = pos 7;
  started_at_unix_ms = pos 500;
  now = 1000;
  generation = token;
}

abbrev first : Stamping
first = stamping "main" "human" 42

abbrev other : Stamping
other = stamping "main2" "machine" 43

abbrev stamp_by : String → ℕ → Stamp
stamp_by origin pid = record {
  origin = origin;
  at_unix_ms = pos 1000;
  record_generation = token;
  instance_of = some (record { shell_pid = pid; shell_start_ticks = 7; started_at_unix_ms = 500 });
}

abbrev first_document : Value
first_document = document_of (("main", stamp_by "human" 42) ∷ [])

recorded : record_origin first missing ≡ some first_document
unfolding record_origin is_proper read_origins document_of string_dec
recorded = refl

abbrev size : Value → ℕ
size v = 1000

abbrev sweep : Listing
sweep = record {
  active = "main" ∷ [];
  now = 500000;
  captured = ("main", token) ∷ ("main2", token) ∷ [];
}

abbrev calls : List Call
calls = records other ∷ prunes sweep ∷ []

swept :
    read_origins (after_all size calls (written size first_document))
    ≡ some (("main", stamp_by "human" 42) ∷ [], true)
unfolding after_all after record_origin is_proper prune_origins read_origins validated_pair
    read_entries document_of is_digest only get equal string_dec
swept = refl

captured_now :
    capture_origin_generations (written size first_document) ≡ some (("main", token) ∷ [])
unfolding capture_origin_generations capture read_origins validated_pair read_entries document_of
    is_digest only get equal string_dec
captured_now = refl

-- A file that is too long, and one whose schema version is a dict.
not_read :
    (read_origins (document 262145 first_document) ≡ some ([], false))
    × (read_origins (document 24 (object (field "schema_version" (object end) end))) ≡ none)
unfolding read_origins validated_pair get string_dec
not_read = (refl, refl)

-- One entry of another schema, and one that names no process.
abbrev mixed : Value
mixed = object (
    field "schema_version" (int (pos 2)) (
      field "sessions"
        (object (
          field "main" (object (field "origin" (str "human") end)) (
            field "main2"
              (object (
                field "origin" (str "machine") (
                  field "record_generation" (str "legacy")
                    (field "instance" (object (field "shell_pid" (int (negsuc 0)) end)) end))))
              end)))
        end))

abbrev read_of_mixed : Stamps
read_of_mixed =
    (
      "main2",
      record {
        origin = "machine";
        at_unix_ms = pos 0;
        record_generation = "legacy";
        instance_of = none;
      },
    )
    ∷ []

mixed_read : validated_pair mixed ≡ some (read_of_mixed, false)
unfolding validated_pair read_entries get equal string_dec
mixed_read = refl

validated_pair-AllSound_example : AllSound read_of_mixed
validated_pair-AllSound_example = validated_pair-AllSound mixed (read_of_mixed, false) mixed_read

missing-Reads : Reads missing []
unfolding Reads read_origins
missing-Reads = (refl, tt)

fresh : is_digest (str token) ≡ true
unfolding is_digest only
fresh = refl

short : 1000 ≤ max_origin_bytes
short = omega arith

all_fit : AllFit size (records first ∷ calls) []
all_fit = (short, (short, (short, tt)))

nothing_stored : read_origins missing ≡ some ([], true)
unfolding read_origins
nothing_stored = refl

after_all-Reads_example :
    Reads (after_all size (records first ∷ calls) missing) (changed_all (records first ∷ calls) [])
after_all-Reads_example =
    after_all-Reads size (records first ∷ calls) missing [] (fresh, (fresh, (tt, tt))) all_fit
      missing-Reads

abbrev row : Fields
row = field "shpool_id_raw" (str "main") (
    field "shpool_shell"
      (object (field "pid" (int (pos 42)) (field "process_start_ticks" (int (pos 7)) end)))
      (field "started_at_unix_ms" (int (pos 500)) (field "machine_driven" (bool true) end)))

row_id : get "shpool_id_raw" (object row) ≡ str "main"
unfolding get string_dec
row_id = refl

row_instance :
    is_instance_of
      (record { shell_pid = 42; shell_start_ticks = 7; started_at_unix_ms = 500 })
      (object row)
    ≡ true
unfolding get equal string_dec
row_instance = refl

other_id : ("main2" =~ "main") ≡ false
unfolding string_dec
other_id = refl

listed :
    (any (λ id. id =~ "main") sweep.active
      || stamped_after 500000 (stamp_by "human" 42)
      || not (is_captured sweep "main" token))
    ≡ true
unfolding string_dec
listed = refl

-- The session reads as driven by a program, and was stamped as a person's.
apply_row-stamped_example :
    (store : Stamps × Bool) × (read_origins (after_all size calls (written size first_document))
      ≡ some store)
    × ((get "origin" (apply_row store false (object row)) ≡ str "human")
        × (get "origin_recorded" (apply_row store false (object row)) ≡ str "human"))
apply_row-stamped_example =
    apply_row-stamped size first missing first_document [] calls false row recorded nothing_stored
      (fresh, (fresh, (tt, tt))) all_fit (other_id, (listed, tt)) row_id row_instance

abbrev alnum : Char → Bool
alnum c = not (code c == b'.')

abbrev request : Marker
request = record { name = "main"; kind = regular }

abbrev receipt : String → Marker
receipt id = record { name = id; kind = regular }

-- The request of a restart stands beside the receipt of an earlier one.
abbrev markers : List Marker
markers = receipt "main.taken.7a" ∷ request ∷ []

abbrev window : Value
window = object (field "shpool_id_raw" (str "main") (field "app_server_window" (bool true) end))

receipts : capture_bounce_receipts alnum (entries markers) ≡ "main.taken.7a" ∷ []
unfolding capture_bounce_receipts bounce_session_id string_dec
receipts = refl

settled :
    clear_settled_bounce_markers alnum (window ∷ []) ("main.taken.7a" ∷ []) (entries markers)
    ≡ entries (request ∷ [])
unfolding clear_settled_bounce_markers bounce_session_id get string_dec
settled = refl

driven :
    apply_session_origins alnum true
      ("main.taken.7a" ∷ [])
      missing
      (object row ∷ window ∷ [])
      (entries (receipt "main.taken.7a" ∷ []))
    ≡ (
      some (put "origin" (str "machine") (object row) ∷ put "origin" (str "human") window ∷ []),
      entries [],
    )
unfolding apply_session_origins clear_settled_bounce_markers provider_is_bouncing bounce_session_id
    read_origins apply_row recorded_origin get put pop string_dec
driven = refl

request_plain : bounce_session_id alnum true "main" ≡ none
unfolding bounce_session_id string_dec
request_plain = refl

request_named : (not ("main" =~ "") && not (contains_text "main" "/")) ≡ true
unfolding string_dec
request_named = refl

request_marks : (is_marker_of alnum "main" "main" && not (is_special alnum regular)) ≡ true
unfolding bounce_session_id string_dec
request_marks = refl

provider_is_bouncing-kept_example :
    provider_is_bouncing alnum
      (clear_settled_bounce_markers alnum (window ∷ []) ("main.taken.7a" ∷ []) (entries markers))
      (str "main")
    ≡ true
provider_is_bouncing-kept_example =
    provider_is_bouncing-kept alnum (window ∷ []) ("main.taken.7a" ∷ []) markers "main" request
      (inr (inl refl)) request_named request_marks (inl request_plain)
