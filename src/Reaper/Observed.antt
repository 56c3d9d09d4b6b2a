-- ===== src/Reaper/Observed.antt =====
-- reaper.py, `plan_auto_close`: what the stored observations say of the passes before.
use session_kit.Base.{
  ℕ, ◌≡◌, refl, sym, ap, subst, ◌∙◌, ◌⊎◌, inl, inr, String, true, false, ◌&&◌, List, [], ◌∷◌, none,
  some, arith, Any, ltb, ◌=~◌, string_dec, Bool-cases, Option-cases,
}
use session_kit.Json.{Value, null, object, Fields, end, field_or_null, get, natural, equal}
use session_kit.Common.Text.{Unicode}
use session_kit.Reaper.Plan.{
  Plan, Pass, is_known, first_verified, observation, document, plan_rows, work_of, plan_auto_close,
  previous_rows, stored_after,
}
use session_kit.Reaper.Due.{Proves, Writes, plan_rows-Kept}

module _ (u : Unicode) (digest : Value → String) (minimum_age : ℕ) where
  -- The pass had a row of this session with a proof of this digest.
  pub record Saw (p : Pass) (session_id proof_hash : String) : Type 0 where
    pub rows : List Value
    pub inventory : Fields
    pub worked : work_of u digest minimum_age p ≡ some (rows, inventory)
    pub row : Any (Proves u digest minimum_age p inventory session_id proof_hash) rows

  -- Since the moment `first` every pass, the latest first, that did not raise has seen the proof.
  abbrev pub ObservedSince : String → String → ℕ → List Pass → Type 0
  ObservedSince session_id proof_hash first [] = ⊥
  ObservedSince session_id proof_hash first (p ∷ earlier) =
      (Saw p session_id proof_hash × (p.now ≡ first))
      ⊎ (((work_of u digest minimum_age p ≡ none) ⊎ Saw p session_id proof_hash)
          × ObservedSince session_id proof_hash first earlier)

  -- What the stored observations say of the passes before.
  abbrev pub Tells : List Pass → Value → Type 0
  Tells ps stored =
      (session_id proof_hash : String)
      → is_known proof_hash (get session_id (previous_rows stored)) ≡ true
      → ObservedSince session_id proof_hash
          (natural (get "first_verified_monotonic_ns" (get session_id (previous_rows stored)))) ps

  previous_rows-document :
      (now : ℕ) (kept : Fields) → previous_rows (document now kept) ≡ object kept
  unfolding previous_rows document get string_dec equal
  previous_rows-document now kept = refl

  known_test :
      (h h' : String) (first : ℕ) → is_known h (observation h' first) ≡ (h' =~ h && ltb 0 first)
  unfolding is_known observation get string_dec
  known_test h h' first = refl

  known_hash : (h h' : String) (first : ℕ) → is_known h (observation h' first) ≡ true → h' ≡ h
  known_hash h h' first e = ground (arith, known_test h h' first)

  known_first :
      (h : String) (first : ℕ)
      → natural (get "first_verified_monotonic_ns" (observation h first)) ≡ first
  unfolding observation get string_dec
  known_first h first = refl

  unknown : (h id : String) → is_known h (get id null) ≡ false
  unfolding is_known get
  unknown h id = refl

  -- A proof that a row shows now has been observed since the moment that the row writes down.
  pub first-Observed :
      (p : Pass) (ps : List Pass) (stored : Value) (id h : String)
      → Tells ps stored
      → Saw p id h
      → ObservedSince id h (first_verified p.now h (get id (previous_rows stored))) (p ∷ ps)
  unfolding first_verified
  first-Observed p ps stored id h tells saw =
      let prior = get id (previous_rows stored) in
      elim (Bool-cases (is_known h prior)) [
        | inl e ↦
            let same : first_verified p.now h prior
                ≡ natural (get "first_verified_monotonic_ns" prior) =
              rw (e, first_verified) refl in
            subst (λ n. ObservedSince id h n (p ∷ ps)) (sym same) (inr (inr saw, tells id h e))
        | inr e ↦
            let same : first_verified p.now h prior ≡ p.now = rw (e, first_verified) refl in
            subst (λ n. ObservedSince id h n (p ∷ ps)) (sym same) (inl (saw, refl))
      ]

  -- What a pass that works leaves behind.
  pub record Worked (p : Pass) (stored : Value) (plan : Plan) : Type 0 where
    pub rows : List Value
    pub inventory : Fields
    pub worked : work_of u digest minimum_age p ≡ some (rows, inventory)
    pub result :
        let r = plan_rows u digest minimum_age p inventory (previous_rows stored) rows end in
        plan ≡ record { observations = document p.now r.0; candidates = r.1 }

  pub plan_auto_close-Worked :
      (p : Pass) (stored : Value) (plan : Plan)
      → plan_auto_close u digest minimum_age p stored ≡ some plan
      → Worked p stored plan
  unfolding plan_auto_close
  plan_auto_close-Worked p stored plan h = elim (Option-cases (work_of u digest minimum_age p)) [
    | inl e ↦ absurd (ground arith)
    | inr (work, e) ↦ record {
      rows = work.0;
      inventory = work.1;
      worked = e;
      result = ground arith;
    }
  ]

  plan_auto_close-raises :
      (p : Pass) (stored : Value)
      → plan_auto_close u digest minimum_age p stored ≡ none
      → work_of u digest minimum_age p ≡ none
  unfolding plan_auto_close
  plan_auto_close-raises p stored h = elim (Option-cases (work_of u digest minimum_age p)) [
    | inl e ↦ e
    | inr (work, e) ↦ absurd (ground arith)
  ]

  -- The digest and the moment that a written observation shows.
  Writes-known :
      (p : Pass) (inventory : Fields) (previous : Value) (id h : String) (v : Value)
      (rows : List Value)
      → is_known h v ≡ true
      → Any (Writes u digest minimum_age p inventory previous id v) rows
      → Any (Proves u digest minimum_age p inventory id h) rows
        × (natural (get "first_verified_monotonic_ns" v) ≡ first_verified p.now h (get id previous))
  Writes-known p inventory previous id h v [] known a = absurd a
  Writes-known p inventory previous id h v (row ∷ rest) known (inr a) =
      let r = Writes-known p inventory previous id h v rest known a in (inr r.0, r.1)
  Writes-known p inventory previous id h v (row ∷ rest) known (inl w) =
      let first = first_verified p.now w.proof_hash (get id previous) in
      let same = known_hash h w.proof_hash first (ap (is_known h) (sym w.written) ∙ known) in
      (
        inl (subst (λ x. Proves u digest minimum_age p inventory id x row) same w.proves),
        ap (λ x. natural (get "first_verified_monotonic_ns" x)) w.written
            ∙ known_first w.proof_hash first
            ∙ ap (λ x. first_verified p.now x (get id previous)) same,
      )

  field-get : (id : String) (fs : Fields) → get id (object fs) ≡ field_or_null id fs
  unfolding get
  field-get id fs = refl

  unwritten : (h id : String) (v : Value) → is_known h v ≡ true → v ≡ field_or_null id end → ⊥
  unfolding is_known
  unwritten h id v known e = cc

  written-Tells :
      (p : Pass) (ps : List Pass) (stored : Value) (plan : Plan)
      → Tells ps stored
      → Worked p stored plan
      → Tells (p ∷ ps) plan.observations
  written-Tells p ps stored plan tells w id h known =
      let kept =
        (plan_rows u digest minimum_age p w.inventory (previous_rows stored) w.rows end).0 in
      let v = field_or_null id kept in
      let same : get id (previous_rows plan.observations) ≡ v =
        ap (λ x. get id (previous_rows x.observations)) w.result
        ∙ ap (get id) (previous_rows-document p.now kept)
        ∙ field-get id kept in
      let known' : is_known h v ≡ true = ap (is_known h) (sym same) ∙ known in
      elim (plan_rows-Kept u digest minimum_age p w.inventory (previous_rows stored) id w.rows
        end) [
          | inl e ↦ absurd (unwritten h id v known' e)
          | inr a ↦
              let (proves, moment) =
                Writes-known p w.inventory (previous_rows stored) id h v w.rows known' a in
              subst (λ n. ObservedSince id h n (p ∷ ps))
                (sym (ap (λ x. natural (get "first_verified_monotonic_ns" x)) same ∙ moment))
                (first-Observed p ps stored id h tells (record {
                  rows = w.rows;
                  inventory = w.inventory;
                  worked = w.worked;
                  row = proves;
                }))
        ]

  nothing_known : (h id : String) → is_known h (get id (previous_rows null)) ≡ true → ⊥
  unfolding is_known get previous_rows equal
  nothing_known h id known = cc

  raised-Tells :
      (p : Pass) (ps : List Pass) (stored : Value)
      → work_of u digest minimum_age p ≡ none
      → Tells ps stored
      → Tells (p ∷ ps) stored
  raised-Tells p ps stored e tells id h known = inr (inl e, tells id h known)

  pub stored_after-Tells : (ps : List Pass) → Tells ps (stored_after u digest minimum_age ps)
  unfolding stored_after
  stored_after-Tells [] = λ id h known. absurd (nothing_known h id known)
  stored_after-Tells (p ∷ ps) =
      let before = stored_after u digest minimum_age ps in
      elim (Option-cases (plan_auto_close u digest minimum_age p before)) [
        | inl e ↦
            subst (Tells (p ∷ ps)) (sym (rw (e, stored_after) refl))
              (raised-Tells p ps before (plan_auto_close-raises p before e) (stored_after-Tells ps))
        | inr (plan, e) ↦ subst (Tells (p ∷ ps)) (sym (rw (e, stored_after) refl)) (
            written-Tells p ps before plan (stored_after-Tells ps)
              (plan_auto_close-Worked p before plan e))
      ]
