-- ===== src/Origins/Sound.antt =====
-- lib/sessionkit_inventory/origins.py: what is read from a store, and that what is written is read back.
use session_kit.Base.{
  ◌≤◌, ◌≡◌, refl, ap, subst, some-injective, inl, inr, String, Bool, true, false, ◌&&◌, ◌||◌, not,
  [], ◌∷◌, Option, none, some, All, Bool-cases, both_hold, ltb, string_dec, if◌then◌else◌, arith,
}
use session_kit.Base.Int.{ℤ, pos}
use session_kit.Json.{
  Value, Fields, field, end, str, get, is_mapping, is_positive_int, natural, equal,
}
use session_kit.Origins.Stamps.{
  Instance, Stamp, Stamps, is_origin, is_generation, text, is_instance, read_instance, stamp_of,
  is_entry, is_recognized, read_entries, fields_of, has_schema, validated_pair, stamp_value,
  stamp_fields, document_of, is_hashable, File, unreadable, missing, document, read_origins,
  max_origin_bytes,
}

abbrev pub SoundInstance : Option Instance → Type 0
SoundInstance none = Unit
SoundInstance (some i) = (1 ≤ i.shell_pid) × (1 ≤ i.shell_start_ticks)

-- The origin is one of the two, the generation is one, and the instance is one of a process.
abbrev pub Sound : Stamp → Type 0
Sound s =
    (is_origin (str s.origin) ≡ true)
    × (is_generation (str s.record_generation) ≡ true)
    × SoundInstance s.instance_of

abbrev pub AllSound : Stamps → Type 0
AllSound stamps = All (λ e. Sound e.1) stamps

pub origin-text : (v : Value) → is_origin v ≡ true → is_origin (str (text v)) ≡ true
origin-text (str s) h = h
origin-text v h = cc

generation-text : (v : Value) → is_generation v ≡ true → is_generation (str (text v)) ≡ true
generation-text (str s) h = h
generation-text v h = cc

positive-natural : (v : Value) → is_positive_int v ≡ true → 1 ≤ natural v
positive-natural (Value.int (pos n)) h = ground arith
positive-natural v h = absurd cc

read_instance-Sound : (v : Value) → SoundInstance (read_instance v)
read_instance-Sound v = elim (Bool-cases (is_mapping v && is_instance v)) [
  | inr e ↦ rw e tt
  | inl e ↦ rw e (
    positive-natural (get "shell_pid" v) (ground arith),
    positive-natural (get "shell_start_ticks" v) (ground arith),
  )
]

generation_of-Sound :
    (current : Bool) (v : Value)
    → (not current || is_generation v) ≡ true
    → is_generation (str (if current then text v else "legacy")) ≡ true
unfolding string_dec
generation_of-Sound true v h = generation-text v h
generation_of-Sound false v h = refl

stamp_of-Sound :
    (current : Bool) (v : Value) → is_entry current v ≡ true → Sound (stamp_of current v)
stamp_of-Sound current v h = (
  origin-text (get "origin" v) (ground arith),
  generation_of-Sound current (get "record_generation" v) (ground arith),
  read_instance-Sound (get "instance" v),
)

read_entries-AllSound : (current : Bool) (fs : Fields) → AllSound (read_entries current fs).0
unfolding read_entries
read_entries-AllSound current end = tt
read_entries-AllSound current (field key entry fs) = elim (Bool-cases (is_entry current entry)) [
  | inl e ↦ rw e (stamp_of-Sound current entry e, read_entries-AllSound current fs)
  | inr e ↦ rw e (read_entries-AllSound current fs)
]

understood-AllSound :
    (v : Value)
    → AllSound
        (if is_mapping v && (has_schema 1 v || has_schema 2 v) && is_mapping (get "sessions" v)
          then read_entries (has_schema 2 v) (fields_of (get "sessions" v))
          else ([], false)).0
understood-AllSound v =
    elim (Bool-cases
      (is_mapping v && (has_schema 1 v || has_schema 2 v) && is_mapping (get "sessions" v))) [
        | inl e ↦ rw e (read_entries-AllSound (has_schema 2 v) (fields_of (get "sessions" v)))
        | inr e ↦ rw e tt
      ]

-- Whatever is stored, each stamp that is read has one of the two origins, a generation (legacy or 64
-- hexadecimal digits) and, where it has an instance, the numbers of a process.
pub validated_pair-AllSound :
    (v : Value) (store : Stamps × Bool) → validated_pair v ≡ some store → AllSound store.0
unfolding validated_pair
validated_pair-AllSound v store h =
    elim (Bool-cases (is_mapping v && not (is_hashable (get "schema_version" v)))) [
      | inl k ↦ absurd (ground arith)
      | inr k ↦ subst (λ r. AllSound r.0) (some-injective (rw k at h)) (understood-AllSound v)
    ]

pub read_origins-AllSound :
    (file : File) (store : Stamps × Bool) → read_origins file ≡ some store → AllSound store.0
unfolding read_origins
read_origins-AllSound unreadable store h = subst (λ r. AllSound r.0) (some-injective h) tt
read_origins-AllSound missing store h = subst (λ r. AllSound r.0) (some-injective h) tt
read_origins-AllSound (document bytes v) store h = elim (Bool-cases (ltb max_origin_bytes bytes)) [
  | inl k ↦ subst (λ r. AllSound r.0) (some-injective (rw k at h)) tt
  | inr k ↦ validated_pair-AllSound v store (rw k at h)
]

abbrev made : String → ℤ → String → Option Instance → Stamp
made origin moment generation i = record {
  origin = origin;
  at_unix_ms = moment;
  record_generation = generation;
  instance_of = i;
}

-- How an entry that was written is read.
AsWritten : Stamp → Type 0
AsWritten s =
    (is_entry true (stamp_value s) ≡ true)
    × (stamp_of true (stamp_value s) ≡ s)
    × (is_recognized (get "instance" (stamp_value s)) ≡ true)

made-AsWritten :
    (origin : String) (moment : ℤ) (generation : String) (i : Option Instance)
    → Sound (made origin moment generation i)
    → AsWritten (made origin moment generation i)
unfolding AsWritten get string_dec
made-AsWritten origin moment generation none (o, g, h) = (both_hold o g, refl, refl)
made-AsWritten origin moment generation (some i) (o, g, h) =
    let pid : ltb 0 i.shell_pid ≡ true = ground arith in
    let ticks : ltb 0 i.shell_start_ticks ≡ true = ground arith in
    (both_hold o g, rw (pid, ticks) refl, rw (pid, ticks) refl)

read_entries-stamp_fields :
    (d : Stamps) → AllSound d → read_entries true (stamp_fields d) ≡ (d, true)
unfolding read_entries AsWritten
read_entries-stamp_fields [] h = refl
read_entries-stamp_fields (e ∷ d) h =
    let (entry, same, recognized) =
      made-AsWritten e.1.origin e.1.at_unix_ms e.1.record_generation e.1.instance_of h.0 in
    rw (entry, same, recognized, read_entries-stamp_fields d h.1) refl

-- The store that is written is read back as it was, and trusted.
pub validated_pair-document_of :
    (d : Stamps) → AllSound d → validated_pair (document_of d) ≡ some (d, true)
unfolding validated_pair document_of get string_dec equal
validated_pair-document_of d h = ap some (read_entries-stamp_fields d h)
