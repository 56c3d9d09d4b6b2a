-- ===== src/Origins/Stamps.antt =====
-- lib/sessionkit_inventory/origins.py: the stamps, as they are read from a document and written to one.
use session_kit.Base.{
  ℕ, String, Bool, true, false, ◌&&◌, ◌||◌, not, [], ◌∷◌, Option, none, some, ◌=~◌, one_of,
  if◌then◌else◌, ltb,
}
use session_kit.Base.Int.{ℤ, pos}
use session_kit.Base.Assoc.{Dict}
use session_kit.Json.{
  Value, Fields, int, str, object, field, end, get, is_mapping, is_list, is_positive_int, natural,
  text_of, equal,
}
use session_kit.Common.{is_digest}

-- What proves that a row is the session that was stamped.
pub record Instance : Type 0 where
  pub shell_pid : ℕ
  pub shell_start_ticks : ℕ
  pub started_at_unix_ms : ℕ

pub record Stamp : Type 0 where
  pub origin : String
  pub at_unix_ms : ℤ
  pub record_generation : String
  pub instance_of : Option Instance

abbrev pub Stamps : Type 0
Stamps = Dict Stamp

-- `value in ORIGINS`
abbrev pub is_origin : Value → Bool
is_origin (str s) = one_of s "human" "machine"
is_origin _ = false

abbrev pub is_generation : Value → Bool
is_generation (str s) = s =~ "legacy" || is_digest (str s)
is_generation _ = false

abbrev pub text : Value → String
text v = elim (text_of v) [ none ↦ "" | some s ↦ s ]

-- An integer, 0 for any other value.
abbrev pub moment_of : Value → ℤ
moment_of (int z) = z
moment_of _ = pos 0

abbrev pub is_natural : Value → Bool
is_natural (int (pos n)) = true
is_natural _ = false

abbrev pub is_instance : Value → Bool
is_instance v =
    is_positive_int (get "shell_pid" v)
    && is_positive_int (get "shell_start_ticks" v)
    && is_natural (get "started_at_unix_ms" v)

abbrev pub read_instance : Value → Option Instance
read_instance v =
    if is_mapping v && is_instance v
    then some record {
      shell_pid = natural (get "shell_pid" v);
      shell_start_ticks = natural (get "shell_start_ticks" v);
      started_at_unix_ms = natural (get "started_at_unix_ms" v);
    }
    else none

-- `current` says that the document is of the current schema.
abbrev pub stamp_of : Bool → Value → Stamp
stamp_of current entry = record {
  origin = text (get "origin" entry);
  at_unix_ms = moment_of (get "at_unix_ms" entry);
  record_generation = if current then text (get "record_generation" entry) else "legacy";
  instance_of = read_instance (get "instance" entry);
}

abbrev pub is_entry : Bool → Value → Bool
is_entry current entry =
    is_mapping entry
    && is_origin (get "origin" entry)
    && (not current || is_generation (get "record_generation" entry))

-- The instance, where there is one, was understood.
abbrev pub is_recognized : Value → Bool
is_recognized instance = not (is_mapping instance) || is_instance instance

-- The stamps, and whether every entry was understood.
unfoldable pub read_entries : Bool → Fields → Stamps × Bool
read_entries current end = ([], true)
read_entries current (field key entry fs) =
    let rest = read_entries current fs in
    if is_entry current entry
    then ((key, stamp_of current entry) ∷ rest.0, is_recognized (get "instance" entry) && rest.1)
    else (rest.0, false)

abbrev pub fields_of : Value → Fields
fields_of (object fs) = fs
fields_of _ = end

abbrev pub has_schema : ℕ → Value → Bool
has_schema n document = equal (get "schema_version" document) (int (pos n))

-- A list or a dict has no hash, so to look for it in a set raises a TypeError.
abbrev pub is_hashable : Value → Bool
is_hashable v = not (is_list v) && not (is_mapping v)

-- `none` is the TypeError.
unfoldable pub validated_pair : Value → Option (Stamps × Bool)
validated_pair document =
    if is_mapping document && not (is_hashable (get "schema_version" document))
    then none
    else some (
        if is_mapping document
          && (has_schema 1 document || has_schema 2 document)
          && is_mapping (get "sessions" document)
        then read_entries (has_schema 2 document) (fields_of (get "sessions" document))
        else ([], false))

abbrev pub max_origin_bytes : ℕ
max_origin_bytes = 262144

-- What is stored: nothing yet, a value with the length of its text, or what does not read as one.
pub data File : Type 0 where
  unreadable missing : File
  document : ℕ → Value → File

unfoldable pub read_origins : File → Option (Stamps × Bool)
read_origins unreadable = some ([], false)
read_origins missing = some ([], true)
read_origins (document bytes v) =
    if ltb max_origin_bytes bytes then some ([], false) else validated_pair v

abbrev pub instance_value : Instance → Value
instance_value i = object (
    field "shell_pid" (int (pos i.shell_pid)) (
      field "shell_start_ticks" (int (pos i.shell_start_ticks))
        (field "started_at_unix_ms" (int (pos i.started_at_unix_ms)) end)))

-- The field is left out where the stamp has no instance.
abbrev pub instance_field : Option Instance → Fields
instance_field none = end
instance_field (some i) = field "instance" (instance_value i) end

abbrev pub stamp_value : Stamp → Value
stamp_value s = object (
    field "origin" (str s.origin) (
      field "at_unix_ms" (int s.at_unix_ms)
        (field "record_generation" (str s.record_generation) (instance_field s.instance_of))))

abbrev pub stamp_fields : Stamps → Fields
stamp_fields [] = end
stamp_fields (e ∷ stamps) = field e.0 (stamp_value e.1) (stamp_fields stamps)

unfoldable pub document_of : Stamps → Value
document_of stamps =
    object
      (field "schema_version" (int (pos 2)) (field "sessions" (object (stamp_fields stamps)) end))
