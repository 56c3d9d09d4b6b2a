-- ===== src/Lifecycle/Closed.antt =====
-- lifecycle.py, `record_close_intent` and `closed_on_purpose`: what becomes of a tombstone.
use session_kit.Base.{
  none, none_no_some, some-injective, ◌⊎◌, false, =~_refl, Bool-cases, ℕ, ◌+◌, ◌≤◌, ◌≡◌, refl, sym,
  ap, subst, ◌∙◌, inl, inr, String, true, List, [], ◌∷◌, some, arith, keep_if, All, All-self,
  All-keep_if, All-kept, Any, Any-map, string_dec, Option-cases,
}
use session_kit.Base.Int.{ℤ, pos}
use session_kit.Base.Assoc.{Dict, lookup, insert, lookup-insert, All-lookup, All-insert}
use session_kit.Json.{Value, null, get, equal}
use session_kit.Lifecycle.Intents.{
  is_too_long, intents_of, closed_entries, validated_close_intents, closed_fields, intent_document,
  is_fresh, load_close_intents, close_intent_key, record_close_intent, closed_on_purpose, Close,
  after_close, after_closes,
}

closed_entries-closed_fields : (d : Dict ℤ) → closed_entries (closed_fields d) ≡ d
unfolding closed_entries get string_dec
closed_entries-closed_fields [] = refl
closed_entries-closed_fields (e ∷ d) = ap (λ x. e ∷ x) (closed_entries-closed_fields d)

-- What is written is read back as it was.
pub validated_close_intents-intent_document :
    (d : Dict ℤ) → validated_close_intents (intent_document d) ≡ d
unfolding validated_close_intents intent_document get string_dec equal
validated_close_intents-intent_document d = closed_entries-closed_fields d

-- What a call that recorded its close has written.
recorded_as :
    (size : Value → ℕ) (provider uuid : Value) (now retention : ℕ) (stored : Value) (key : String)
    → close_intent_key provider uuid ≡ some key
    → is_too_long size stored ≡ false
    → record_close_intent size provider uuid now retention stored
      ≡ some (
          intent_document (
            insert key
              (pos now)
              (keep_if (is_fresh now retention) (validated_close_intents stored))))
unfolding record_close_intent load_close_intents
recorded_as size provider uuid now retention stored key e fits =
    rw (e, record_close_intent, fits) refl

too_long_raises :
    (size : Value → ℕ) (provider uuid : Value) (now retention : ℕ) (stored : Value)
    → is_too_long size stored ≡ true
    → record_close_intent size provider uuid now retention stored ≡ none
unfolding record_close_intent load_close_intents
too_long_raises size provider uuid now retention stored long =
    elim (Option-cases (close_intent_key provider uuid)) [
      | inl e ↦ rw (e, record_close_intent) refl
      | inr (key, e) ↦ rw (e, record_close_intent, long) refl
    ]

no_key_raises :
    (size : Value → ℕ) (provider uuid : Value) (now retention : ℕ) (stored : Value)
    → close_intent_key provider uuid ≡ none
    → record_close_intent size provider uuid now retention stored ≡ none
unfolding record_close_intent
no_key_raises size provider uuid now retention stored e = rw (e, record_close_intent) refl

-- A call that cannot record its close changes nothing; any other one writes a document.
after_close-cases :
    (size : Value → ℕ) (retention : ℕ) (c : Close) (stored : Value)
    → (after_close size retention c stored ≡ stored)
      ⊎ ((key : String) × (close_intent_key c.provider c.uuid ≡ some key)
          × (validated_close_intents (after_close size retention c stored)
              ≡ insert key
                  (pos c.now)
                  (keep_if (is_fresh c.now retention) (validated_close_intents stored))))
unfolding after_close
after_close-cases size retention c stored =
    elim (Option-cases (close_intent_key c.provider c.uuid)) [
      | inl e ↦
          inl (rw (no_key_raises size c.provider c.uuid c.now retention stored e, after_close) refl)
      | inr (key, e) ↦ elim (Bool-cases (is_too_long size stored)) [
        | inl long ↦ inl (
            rw (too_long_raises size c.provider c.uuid c.now retention stored long, after_close)
              refl)
        | inr fits ↦
            let does = recorded_as size c.provider c.uuid c.now retention stored key e fits in
            inr (key, e, rw (does, after_close) (validated_close_intents-intent_document _))
      ]
    ]

-- The document has a tombstone of this moment or a later one.
record Holds (key : String) (since : ℕ) (d : Dict ℤ) : Type 0 where
  moment : ℕ
  found : lookup key d ≡ some (pos moment)
  late : since ≤ moment

lookup-keep_if :
    (now retention : ℕ) (key : String) (moment : ℕ) (d : Dict ℤ)
    → lookup key d ≡ some (pos moment)
    → now ≤ moment + retention
    → lookup key (keep_if (is_fresh now retention) d) ≡ some (pos moment)
lookup-keep_if now retention key moment [] e h = cc
lookup-keep_if now retention key moment (x ∷ d) e h =
    ground (arith, lookup-keep_if now retention key moment d)

module _ (retention : ℕ) (key : String) (since : ℕ) where
  kept :
      (now : ℕ) (d : Dict ℤ)
      → now ≤ since + retention
      → Holds key since d
      → Holds key since (keep_if (is_fresh now retention) d)
  kept now d h s = record {
    moment = s.moment;
    found = lookup-keep_if now retention key s.moment d s.found (omega (arith, s.late));
    late = s.late;
  }

  inserted :
      (now : ℕ) (j : String) (d : Dict ℤ)
      → since ≤ now
      → Holds key since d
      → Holds key since (insert j (pos now) d)
  inserted now j d h s = elim (string_dec j key) [
    | yes e ↦ record {
      moment = now;
      found = ground (arith, lookup-insert j key (pos now) d);
      late = h;
    }
    | no ne ↦ record {
      moment = s.moment;
      found = ground (arith, lookup-insert j key (pos now) d, s.found);
      late = s.late;
    }
  ]

  after_close-Holds :
      (size : Value → ℕ) (c : Close) (stored : Value)
      → since ≤ c.now
      → c.now ≤ since + retention
      → Holds key since (validated_close_intents stored)
      → Holds key since (validated_close_intents (after_close size retention c stored))
  after_close-Holds size c stored late early s = elim (after_close-cases size retention c stored) [
    | inl same ↦ subst (λ x. Holds key since (validated_close_intents x)) (sym same) s
    | inr (j, e, same) ↦
        subst (Holds key since) (sym same)
          (inserted c.now j _ late (kept c.now (validated_close_intents stored) early s))
  ]

  after_closes-Holds :
      (size : Value → ℕ) (cs : List Close) (stored : Value)
      → All (λ c. (since ≤ c.now) × (c.now ≤ since + retention)) cs
      → Holds key since (validated_close_intents stored)
      → Holds key since (validated_close_intents (after_closes size retention cs stored))
  unfolding after_closes
  after_closes-Holds size [] stored h s = s
  after_closes-Holds size (c ∷ cs) stored h s =
      after_closes-Holds size cs (after_close size retention c stored) h.1
        (after_close-Holds size c stored h.0.0 h.0.1 s)

-- The first close, as it stands in what was written.
recorded-Holds :
    (size : Value → ℕ) (provider uuid : Value) (since retention : ℕ) (stored written : Value)
    → record_close_intent size provider uuid since retention stored ≡ some written
    → (key : String) × (close_intent_key provider uuid ≡ some key)
      × Holds key since (validated_close_intents written)
recorded-Holds size provider uuid since retention stored written h =
    elim (Bool-cases (is_too_long size stored)) [
      | inl long ↦
          absurd (
            none_no_some (sym (too_long_raises size provider uuid since retention stored long) ∙ h))
      | inr fits ↦ elim (Option-cases (close_intent_key provider uuid)) [
        | inl e ↦
            absurd
              (none_no_some (sym (no_key_raises size provider uuid since retention stored e) ∙ h))
        | inr (key, e) ↦
            let d =
              insert key (pos since)
                (keep_if (is_fresh since retention) (validated_close_intents stored)) in
            let same : intent_document d ≡ written =
              some-injective
                (sym (recorded_as size provider uuid since retention stored key e fits) ∙ h) in
            let first : Holds key since d = record {
              moment = since;
              found = lookup-insert key key (pos since) _ ∙ rw (=~_refl key) refl;
              late = omega arith;
            } in
            (
              key,
              e,
              subst (λ x. Holds key since (validated_close_intents x)) same
                  (subst (Holds key since) (sym (validated_close_intents-intent_document d)) first),
            )
      ]
    ]

-- A close that was recorded at some moment is seen until the retention is over, whichever other
-- closes are recorded in between, if their clocks do not run behind that moment, the retention is not
-- over at them, and what they leave is not too long to be read. It is seen in the stored document,
-- and also in one that was loaded before and is passed as `intents`.
pub record_close_intent-closed :
    (size : Value → ℕ) (provider uuid : Value) (since now retention : ℕ) (stored written : Value)
    (cs : List Close)
    → record_close_intent size provider uuid since retention stored ≡ some written
    → All (λ c. (since ≤ c.now) × (c.now ≤ since + retention)) cs
    → now ≤ since + retention
    → is_too_long size (after_closes size retention cs written) ≡ false
    → (closed_on_purpose size provider uuid none now retention
          (after_closes size retention cs written)
        ≡ some true)
      × ((d : Dict ℤ)
          → load_close_intents size now retention (after_closes size retention cs written) ≡ some d
          → closed_on_purpose size provider uuid
              (some (intent_document d))
              now
              retention
              (after_closes size retention cs written)
            ≡ some true)
unfolding closed_on_purpose load_close_intents intents_of
record_close_intent-closed size provider uuid since now retention stored written cs h between early
      fits =
    let (key, e, first) = recorded-Holds size provider uuid since retention stored written h in
    let held = after_closes-Holds retention key since size cs written between first in
    let still = kept retention key since now _ early held in
    (
      rw (e, closed_on_purpose, fits, still.found) refl,
      λ d l.
          let same : keep_if (is_fresh now retention)
                (validated_close_intents (after_closes size retention cs written))
              ≡ d =
            some-injective (rw fits at l) in
          let found = subst (λ x. lookup key x ≡ some (pos still.moment)) same still.found in
          rw (e, closed_on_purpose, validated_close_intents-intent_document d, found) refl,
    )

-- The tombstone was put there by one of these closes.
abbrev PutBy : List Close → String × ℤ → Type 0
PutBy cs e = Any (λ c. (close_intent_key c.provider c.uuid ≡ some e.0) × (e.1 ≡ pos c.now)) cs

after_close-PutBy :
    (size : Value → ℕ) (retention : ℕ) (cs : List Close) (c : Close) (stored : Value)
    → Any (λ x. x ≡ c) cs
    → All (PutBy cs) (validated_close_intents stored)
    → All (PutBy cs) (validated_close_intents (after_close size retention c stored))
after_close-PutBy size retention cs c stored one h =
    elim (after_close-cases size retention c stored) [
      | inl same ↦ subst (λ x. All (PutBy cs) (validated_close_intents x)) (sym same) h
      | inr (j, e, same) ↦ subst (All (PutBy cs)) (sym same) (
          All-insert (PutBy cs) j (pos c.now) _
            (All-keep_if (PutBy cs) _ (validated_close_intents stored) h)
            (Any-map cs
              (λ x q.
                (ap (λ y. close_intent_key y.provider y.uuid) q ∙ e, ap (λ y. pos y.now) (sym q)))
              one))
    ]

after_closes-PutBy :
    (size : Value → ℕ) (retention : ℕ) (cs all : List Close) (stored : Value)
    → All (λ c. Any (λ x. x ≡ c) all) cs
    → All (PutBy all) (validated_close_intents stored)
    → All (PutBy all) (validated_close_intents (after_closes size retention cs stored))
unfolding after_closes
after_closes-PutBy size retention [] all stored h s = s
after_closes-PutBy size retention (c ∷ cs) all stored h s =
    after_closes-PutBy size retention cs all (after_close size retention c stored) h.1
      (after_close-PutBy size retention all c stored h.0 s)

nothing_closed : validated_close_intents null ≡ []
unfolding validated_close_intents get equal
nothing_closed = refl

fresh-le :
    (now retention n : ℕ) (key : String)
    → is_fresh now retention (key, pos n) ≡ true
    → now ≤ n + retention
fresh-le now retention n key h = ground arith

-- A conversation that is reported as closed on purpose, after some closes on a document that
-- starts empty, was closed by one of them, and the retention of that close is not over.
pub closed_on_purpose-recorded :
    (size : Value → ℕ) (provider uuid : Value) (now retention : ℕ) (cs : List Close)
    → closed_on_purpose size provider uuid none now retention (after_closes size retention cs null)
      ≡ some true
    → Any
        (λ c.
          (close_intent_key c.provider c.uuid ≡ close_intent_key provider uuid)
          × (now ≤ c.now + retention))
        cs
unfolding closed_on_purpose load_close_intents intents_of
closed_on_purpose-recorded size provider uuid now retention cs h =
    let stored = after_closes size retention cs null in
    elim (Option-cases (close_intent_key provider uuid)) [
      | inl e ↦ absurd (ground arith)
      | inr (key, e) ↦ elim (Bool-cases (is_too_long size stored)) [
        | inl long ↦ absurd (ground arith)
        | inr fits ↦
            let d = validated_close_intents stored in
            let put =
              after_closes-PutBy size retention cs cs null (All-self cs) (rw nothing_closed tt) in
            elim (Option-cases (lookup key (keep_if (is_fresh now retention) d))) [
              | inl nothing ↦ absurd (ground arith)
              | inr (at_unix, found) ↦
                  let by =
                    All-lookup (PutBy cs) key at_unix _ (All-keep_if (PutBy cs) _ d put) found in
                  let fresh =
                    All-lookup (λ x. is_fresh now retention x ≡ true) key at_unix _
                      (All-kept (is_fresh now retention) d) found in
                  Any-map cs
                    (λ c q. (
                      q.0 ∙ sym e,
                      fresh-le now retention c.now key
                          (ap (λ z. is_fresh now retention (key, z)) (sym q.1) ∙ fresh),
                    ))
                    by
            ]
      ]
    ]
