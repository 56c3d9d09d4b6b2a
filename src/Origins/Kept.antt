-- ===== src/Origins/Kept.antt =====
-- lib/sessionkit_inventory/origins.py: a row shows the origin that its session was stamped with.
use session_kit.Base.{
  ℕ, =~_refl, ◌≡◌, refl, sym, subst, ◌∙◌, inl, inr, String, Bool, true, false, ◌||◌, not, List, [],
  ◌∷◌, some, some-injective, any, keep_if, All, Bool-cases, =~→eq, ◌=~◌, string_dec, arith,
}
use session_kit.Base.Assoc.{lookup, lookup-insert}
use session_kit.Json.{
  Value, Fields, object, str, is_str, get, put, pop, set_field, drop_field, field_or_null-set_field,
}
use session_kit.Origins.Store.{
  Stamping, is_proper, instance_named, stamp_named, record_origin, stamped_after, is_captured,
  keeps, is_empty, written,
}
use session_kit.Origins.Stamps.{Stamp, Stamps, File, read_origins, is_origin, text}
use session_kit.Origins.Sound.{read_origins-AllSound}
use session_kit.Origins.Calls.{
  Call, records, prunes, after, after_all, changed, changed_all, IsFresh, AllFit, Reads,
  after_all-Reads,
}
use session_kit.Origins.Apply.{is_instance_of, recorded_origin, proven_origin, apply_row}

-- The call is not about the session, or cannot prove that it is gone: the listing names it, or is at
-- most two minutes after the stamp, or another generation was captured before it.
abbrev pub Spares : String → Stamp → Call → Type 0
Spares id s (records c) = (text c.shpool_id =~ id) ≡ false
Spares id s (prunes l) =
    (any (λ listed. listed =~ id) l.active
      || stamped_after l.now s
      || not (is_captured l id s.record_generation))
    ≡ true

lookup-keep_if :
    (p : String × Stamp → Bool) (id : String) (s : Stamp) (d : Stamps)
    → lookup id d ≡ some s
    → p (id, s) ≡ true
    → lookup id (keep_if p d) ≡ some s
lookup-keep_if p id s [] e h = cc
lookup-keep_if p id s ((j, t) ∷ d) e h = elim (Bool-cases (j =~ id)) [
  | inr miss ↦
      let rest = lookup-keep_if p id s d (rw miss at e) h in
      elim (Bool-cases (p (j, t))) [ inl k ↦ rw (k, miss) rest | inr k ↦ rw k rest ]
  | inl hit ↦
      let same : t ≡ s = some-injective (rw hit at e) in
      let passes : p (j, t) ≡ true =
        subst (λ x. p (x, t) ≡ true) (sym (=~→eq j id hit))
          (subst (λ x. p (id, x) ≡ true) (sym same) h) in
      rw (passes, hit, same) refl
]

lookup-changed :
    (c : Call) (id : String) (s : Stamp) (d : Stamps)
    → Spares id s c
    → lookup id d ≡ some s
    → lookup id (changed c d) ≡ some s
lookup-changed (records c) id s d h e = elim (Bool-cases (is_proper c)) [
  | inr k ↦ rw k e
  | inl k ↦ rw k (lookup-insert (text c.shpool_id) id (stamp_named c) d ∙ rw h e)
]
lookup-changed (prunes l) id s d h e =
    elim (Bool-cases (is_empty l.active || is_empty l.captured)) [
      | inl k ↦ rw k e
      | inr k ↦ rw k (lookup-keep_if (keeps l) id s d e h)
    ]

lookup-changed_all :
    (cs : List Call) (id : String) (s : Stamp) (d : Stamps)
    → All (Spares id s) cs
    → lookup id d ≡ some s
    → lookup id (changed_all cs d) ≡ some s
lookup-changed_all [] id s d h e = e
lookup-changed_all (c ∷ cs) id s d h e =
    lookup-changed_all cs id s (changed c d) h.1 (lookup-changed c id s d h.0 e)

str-text : (v : Value) → is_origin v ≡ true → str (text v) ≡ v
str-text (str s) h = refl
str-text v h = cc

named-is_str : (v : Value) → not (text v =~ "") ≡ true → is_str v ≡ true
unfolding string_dec
named-is_str (str s) h = refl
named-is_str v h = cc

apply_row-origin :
    (d : Stamps) (bouncing : Bool) (fs : Fields) (o : String)
    → recorded_origin (object fs) d ≡ some o
    → (get "origin" (apply_row (d, true) bouncing (object fs)) ≡ str o)
      × (get "origin_recorded" (apply_row (d, true) bouncing (object fs)) ≡ str o)
unfolding get put pop string_dec apply_row
apply_row-origin d bouncing fs o h =
    let origin : Fields = set_field "origin" (str o) (drop_field "origin_recorded" fs) in
    (
      rw (apply_row, h)
          (field_or_null-set_field "origin_recorded" "origin" (str o) origin
            ∙ field_or_null-set_field "origin" "origin" (str o) (drop_field "origin_recorded" fs)),
      rw (apply_row, h)
          (field_or_null-set_field "origin_recorded" "origin_recorded" (str o) origin),
    )

recorded_origin-proven_origin :
    (row : Value) (s : Stamp) (d : Stamps) (o : String)
    → is_str (get "shpool_id_raw" row) ≡ true
    → lookup (text (get "shpool_id_raw" row)) d ≡ some s
    → proven_origin row s ≡ some o
    → recorded_origin row d ≡ some o
unfolding recorded_origin
recorded_origin-proven_origin row s d o k e h = rw (k, e) h

record_origin-proper :
    (c : Stamping) (file : File) (w : Value) → record_origin c file ≡ some w → is_proper c ≡ true
unfolding record_origin
record_origin-proper c file w h = elim (Bool-cases (is_proper c)) [
  | inl k ↦ k
  | inr k ↦ absurd (ground arith)
]

record_origin-written :
    (size : Value → ℕ) (c : Stamping) (file : File) (w : Value)
    → record_origin c file ≡ some w
    → after size (records c) file ≡ written size w
unfolding after
record_origin-written size c file w h = rw (h, after) refl

first_lookup :
    (c : Stamping) (d : Stamps)
    → is_proper c ≡ true
    → lookup (text c.shpool_id) (changed (records c) d) ≡ some (stamp_named c)
first_lookup c d h = rw h (
    lookup-insert (text c.shpool_id) (text c.shpool_id) (stamp_named c) d
    ∙ rw (=~_refl (text c.shpool_id)) refl)

-- The row shows the origin, also as the recorded one.
abbrev Shows : Value → Stamps × Bool → Bool → Fields → Type 0
Shows origin store bouncing row =
    (get "origin" (apply_row store bouncing (object row)) ≡ origin)
    × (get "origin_recorded" (apply_row store bouncing (object row)) ≡ origin)

-- A session that was stamped keeps its origin: after any calls, each of which stamps another session
-- or does not prove it gone, and leaves stamps that fit in the file, the store is read, and a row of
-- the same session instance shows the origin of the stamp, also as the recorded one.
pub apply_row-stamped :
    (size : Value → ℕ) (c : Stamping) (file : File) (w : Value) (d : Stamps) (cs : List Call)
    (bouncing : Bool) (row : Fields)
    → record_origin c file ≡ some w
    → read_origins file ≡ some (d, true)
    → All IsFresh (records c ∷ cs)
    → AllFit size (records c ∷ cs) d
    → All (Spares (text c.shpool_id) (stamp_named c)) cs
    → get "shpool_id_raw" (object row) ≡ c.shpool_id
    → is_instance_of (instance_named c) (object row) ≡ true
    → (store : Stamps × Bool) × (read_origins (after_all size cs (written size w)) ≡ some store)
      × Shows c.origin store bouncing row
unfolding Reads is_proper after_all
apply_row-stamped size c file w d cs bouncing row h trusted fresh fit spared named same =
    let id : String = text c.shpool_id in
    let proper = record_origin-proper c file w h in
    let all : Stamps = changed_all (records c ∷ cs) d in
    let reads : Reads (after_all size (records c ∷ cs) file) all =
      after_all-Reads size (records c ∷ cs) file d fresh fit
        (trusted, read_origins-AllSound file (d, true) trusted) in
    let found : lookup id all ≡ some (stamp_named c) =
      lookup-changed_all cs id (stamp_named c) (changed (records c) d) spared
        (first_lookup c d proper) in
    let shown = apply_row-origin all bouncing row (text c.origin) (
      recorded_origin-proven_origin (object row) (stamp_named c) all (text c.origin)
        (subst (λ v. is_str v ≡ true) (sym named) (named-is_str c.shpool_id (ground arith)))
        (subst (λ v. lookup (text v) all ≡ some (stamp_named c)) (sym named) found)
        (rw same refl)) in
    (
      (all, true),
      subst (λ f. read_origins (after_all size cs f) ≡ some (all, true))
          (record_origin-written size c file w h) reads.0,
      subst (λ v. Shows v (all, true) bouncing row) (str-text c.origin (ground arith)) shown,
    )
