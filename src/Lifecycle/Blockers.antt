-- ===== src/Lifecycle/Blockers.antt =====
-- lifecycle.py, `record_provider_exit` and `update_state`: the record of input after an exit.
use session_kit.Base.{
  ℕ, ◌≡◌, refl, ap, subst, inl, inr, String, true, List, [], ◌∷◌, some, arith, =~_refl, string_dec,
  if◌then◌else◌, Bool-cases, Option-cases,
}
use session_kit.Base.Int.{pos}
use session_kit.Json.{
  Value, null, bool, int, float, str, list, object, field_or_null-set_field, get, put, is_mapping,
  is_none, truthy, equal,
}
use session_kit.Lifecycle.Exits.{
  validated_state, load_state, Shell, same_generation, Exit, contradicts, exit_document, exit_after,
  record_provider_exit, Event, user_input, keeps, unsupported, updated, stamped, update_state,
  is_protected, Call, exits, updates, after, after_all, is_optional_uuid,
}
use session_kit.Lifecycle.Agrees.{
  Agrees-IsBlocked, IsBlocked, load_state-Agrees, put-Agrees, stamped-Agrees,
  validated_state-Agrees,
}

module _ (key : String) (s : Shell) where
  same_number : (n : ℕ) → equal (int (pos n)) (int (pos n)) ≡ true
  unfolding equal
  same_number n = ground arith

  same_generation-of :
      (v : Value)
      → is_mapping v ≡ true
      → get "boot_id" v ≡ str s.boot_id
      → get "shell_pid" v ≡ int (pos s.shell_pid)
      → get "shell_start_ticks" v ≡ int (pos s.shell_start_ticks)
      → same_generation s v ≡ true
  unfolding same_generation
  same_generation-of v m a b c =
      rw (m, a, b, c, =~_refl s.boot_id, same_number s.shell_pid, same_number s.shell_start_ticks)
        refl

  exit_document-IsBlocked :
      (e : Exit) (conversation keep : Value)
      → IsBlocked s (exit_document key s e conversation (bool true) keep)
  unfolding exit_document get string_dec
  exit_document-IsBlocked e conversation keep = record {
    mapping = refl;
    typed = refl;
    same = same_generation-of _ refl refl refl refl;
  }

  typed-IsBlocked :
      (v : Value)
      → is_mapping v ≡ true
      → same_generation s v ≡ true
      → IsBlocked s (put "user_input_after_exit" (bool true) v)
  unfolding put get same_generation string_dec
  typed-IsBlocked (object fs) m h =
      let k : String = "user_input_after_exit" in
      record {
        mapping = refl;
        typed = ap truthy (field_or_null-set_field k k (bool true) fs);
        same =
            rw
              (
                field_or_null-set_field k "boot_id" (bool true) fs,
                field_or_null-set_field k "shell_pid" (bool true) fs,
                field_or_null-set_field k "shell_start_ticks" (bool true) fs,
              )
              h;
      }
  typed-IsBlocked null m h = cc
  typed-IsBlocked (bool b) m h = cc
  typed-IsBlocked (int z) m h = cc
  typed-IsBlocked (float f) m h = cc
  typed-IsBlocked (str t) m h = cc
  typed-IsBlocked (list xs) m h = cc

  validated-IsBlocked :
      (v w : Value) → validated_state key v ≡ some w → IsBlocked s v → IsBlocked s w
  validated-IsBlocked v w h b = Agrees-IsBlocked s v w (validated_state-Agrees key v w h) b

  exit_after-IsBlocked :
      (e : Exit) (previous w : Value)
      → exit_after key s e previous ≡ some w
      → IsBlocked s previous
      → IsBlocked s w
  unfolding exit_after
  exit_after-IsBlocked e previous w h b =
      let conversation =
        if is_none e.conversation_uuid
        then get "conversation_uuid" previous
        else e.conversation_uuid in
      let keep = bool (truthy (get "keep" previous)) in
      elim (Bool-cases (contradicts e previous)) [
        | inl c ↦ absurd (ground (arith, b.same))
        | inr c ↦
            validated-IsBlocked (exit_document key s e conversation (bool true) keep) w
              (ground (arith, b.same, b.typed)) (exit_document-IsBlocked e conversation keep)
      ]

  updated-IsBlocked :
      (event : Event) (v w : Value) → updated event v ≡ some w → IsBlocked s v → IsBlocked s w
  unfolding updated string_dec
  updated-IsBlocked user_input v w h b =
      let same : put "user_input_after_exit" (bool true) v ≡ w = cc in
      subst (IsBlocked s) same (typed-IsBlocked v b.mapping b.same)
  updated-IsBlocked (keeps x) v w h b =
      let same : put "keep" (bool x) v ≡ w = cc in
      subst (IsBlocked s) same
        (Agrees-IsBlocked s v _ (put-Agrees "keep" (bool x) v (refl, refl, refl, refl)) b)
  updated-IsBlocked unsupported v w h b = cc

  exits-IsBlocked :
      (e : Exit) (v w : Value)
      → record_provider_exit key s e v ≡ some w
      → IsBlocked s v
      → IsBlocked s w
  unfolding record_provider_exit
  exits-IsBlocked e v w h b = elim (Bool-cases (is_optional_uuid e.conversation_uuid)) [
    | inr c ↦ absurd (ground arith)
    | inl c ↦ elim (Option-cases (load_state key v)) [
      | inl n ↦ absurd (ground arith)
      | inr (previous, l) ↦
          exit_after-IsBlocked e previous w (ground arith)
            (Agrees-IsBlocked s v previous (load_state-Agrees key v previous b.mapping l) b)
    ]
  ]

  -- An update that does not raise has read a document of this generation.
  updates_read :
      (event : Event) (g : String) (v w : Value)
      → update_state key s event g v ≡ some w
      → (current changed : Value) × (load_state key v ≡ some current)
        × (same_generation s current ≡ true)
        × (updated event current ≡ some changed)
        × (validated_state key (stamped g changed) ≡ some w)
  unfolding update_state
  updates_read event g v w h = elim (Option-cases (load_state key v)) [
    | inl n ↦ absurd (ground arith)
    | inr (current, l) ↦ elim (Bool-cases (same_generation s current)) [
      | inr c ↦ absurd (ground arith)
      | inl c ↦ elim (Option-cases (updated event current)) [
        | inl n ↦ absurd (ground arith)
        | inr (changed, d) ↦ (current, changed, l, c, d, ground arith)
      ]
    ]
  ]

  updates-IsBlocked :
      (event : Event) (g : String) (v w : Value)
      → update_state key s event g v ≡ some w
      → IsBlocked s v
      → IsBlocked s w
  updates-IsBlocked event g v w h b =
      let (current, changed, l, c, d, checked) = updates_read event g v w h in
      let blocked =
        updated-IsBlocked event current changed d
          (Agrees-IsBlocked s v current (load_state-Agrees key v current b.mapping l) b) in
      validated-IsBlocked (stamped g changed) w checked
        (Agrees-IsBlocked s changed _ (stamped-Agrees g changed) blocked)

  after-IsBlocked : (c : Call) (v : Value) → IsBlocked s v → IsBlocked s (after key s c v)
  unfolding after
  after-IsBlocked (exits e) v b = elim (Option-cases (record_provider_exit key s e v)) [
    | inl n ↦ rw (n, after) b
    | inr (w, h) ↦ rw (h, after) (exits-IsBlocked e v w h b)
  ]
  after-IsBlocked (updates event g) v b = elim (Option-cases (update_state key s event g v)) [
    | inl n ↦ rw (n, after) b
    | inr (w, h) ↦ rw (h, after) (updates-IsBlocked event g v w h b)
  ]

  after_all-IsBlocked :
      (cs : List Call) (v : Value) → IsBlocked s v → IsBlocked s (after_all key s cs v)
  unfolding after_all
  after_all-IsBlocked [] v b = b
  after_all-IsBlocked (c ∷ cs) v b =
      after_all-IsBlocked cs (after key s c v) (after-IsBlocked c v b)

  mapping_of_same : (v : Value) → same_generation s v ≡ true → is_mapping v ≡ true
  unfolding same_generation
  mapping_of_same v h = ground arith

  typed_blocks :
      (g : String) (v w : Value) → update_state key s user_input g v ≡ some w → IsBlocked s w
  unfolding updated
  typed_blocks g v w h =
      let (current, changed, l, c, d, checked) = updates_read user_input g v w h in
      let same : put "user_input_after_exit" (bool true) current ≡ changed = cc in
      validated-IsBlocked (stamped g changed) w checked (
        Agrees-IsBlocked s changed _ (stamped-Agrees g changed)
          (subst (IsBlocked s) same (typed-IsBlocked current (mapping_of_same current c) c)))

  IsBlocked-is_protected : (v : Value) → IsBlocked s v → is_protected key v ≡ true
  unfolding is_protected
  IsBlocked-is_protected v b = elim (Option-cases (load_state key v)) [
    | inl n ↦ rw (n, is_protected) refl
    | inr (w, l) ↦
        let c = Agrees-IsBlocked s v w (load_state-Agrees key v w b.mapping l) b in
        ground (arith, c.mapping, c.typed)
  ]

-- Once input in the shell after its provider's exit is recorded, the terminal stays protected from
-- unattended cleanup, whatever exits and updates of the same shell generation are recorded later.
pub update_state-is_protected :
    (key : String) (s : Shell) (g : String) (stored written : Value) (cs : List Call)
    → update_state key s user_input g stored ≡ some written
    → is_protected key (after_all key s cs written) ≡ true
update_state-is_protected key s g stored written cs h =
    IsBlocked-is_protected key s _
      (after_all-IsBlocked key s cs written (typed_blocks key s g stored written h))
