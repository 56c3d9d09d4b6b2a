-- ===== src/Reaper/Closes.antt =====
-- reaper.py, `plan_auto_close`: the terminals that a plan proposes to close.
use session_kit.Base.{
  ℕ, ◌+◌, ◌≤◌, ◌≡◌, sym, subst, inl, inr, String, true, List, [], ◌∷◌, some, All, All-map, Any,
  Any-map,
}
use session_kit.Json.{Value, object, Fields, end, get, text_of}
use session_kit.Common.Text.{Unicode}
use session_kit.Reaper.Candidates.{Exited, exited, proof_json, safe_candidate, is_phantom}
use session_kit.Reaper.Plan.{
  Candidate, provider_exited, shell_less_phantom, Plan, Pass, first_verified, work_of,
  plan_auto_close, previous_rows, stored_after,
}
use session_kit.Reaper.Due.{Proposes, plan_rows-Proposed}
use session_kit.Reaper.Listed.{Proven, proof_of-exited, listed-Proven, phantom_row}
use session_kit.Reaper.Observed.{
  Tells, Saw, ObservedSince, first-Observed, stored_after-Tells, Worked, plan_auto_close-Worked,
}

module _ (u : Unicode) (digest : Value → String) (minimum_age : ℕ) where
  -- Some row of the pass's list, with its inventory row and its process fact, has the property.
  pub record ShowsRow (p : Pass) (session_id : String) (P : Value → Value → Value → Type 0)
      : Type 0 where
    pub rows : List Value
    pub inventory : Fields
    pub worked : work_of u digest minimum_age p ≡ some (rows, inventory)
    pub row :
        Any
          (λ row.
            (text_of (get "name" row) ≡ some session_id)
            × P row (get session_id (object inventory)) (get session_id p.facts))
          rows

  -- What holds of a proposed close after the passes `ps`, with `p` the one that proposes it.
  abbrev pub IsDue : Pass → List Pass → Candidate → Type 0
  IsDue p ps (provider_exited e proof_hash first) =
      (first + minimum_age ≤ p.now)
      × (e.exit_ns + minimum_age ≤ p.now)
      × (proof_hash ≡ digest (proof_json (exited e)))
      × ShowsRow p e.session_id
          (λ row item fact. safe_candidate u p.now e.session_id row item fact ≡ some e)
      × ObservedSince u digest minimum_age e.session_id proof_hash first (p ∷ ps)
  IsDue p ps (shell_less_phantom session_id started proof_hash first) =
      ShowsRow p session_id (λ row item fact. is_phantom u session_id row item fact ≡ true)

  -- The facts of a proposed close, from the row that has proposed it.
  Any-Proven :
      (p : Pass) (inventory : Fields) (stored : Value) (e : Exited) (h : String) (first : ℕ)
      (rows : List Value)
      → Any (Proven u digest minimum_age p inventory stored e h first) rows
      → (first + minimum_age ≤ p.now)
        × (e.exit_ns + minimum_age ≤ p.now)
        × (h ≡ digest (proof_json (exited e)))
        × (first ≡ first_verified p.now h (get e.session_id (previous_rows stored)))
  Any-Proven p inventory stored e h first [] a = absurd a
  Any-Proven p inventory stored e h first (row ∷ rest) (inl q) =
      (q.age, q.exit_age, sym q.hashed, q.moment)
  Any-Proven p inventory stored e h first (row ∷ rest) (inr a) =
      Any-Proven p inventory stored e h first rest a

  -- The pass shows a row with a property that each row has which proposes the close.
  shows_row :
      (p : Pass) (stored : Value) (plan : Plan) (w : Worked u digest minimum_age p stored plan)
      (session_id : String) (P : Value → Value → Value → Type 0) (Q : Value → Type 0)
      → ((row : Value)
          → Q row
          → (text_of (get "name" row) ≡ some session_id)
            × P row (get session_id (object w.inventory)) (get session_id p.facts))
      → Any Q w.rows
      → ShowsRow p session_id P
  shows_row p stored plan w session_id P Q each a = record {
    rows = w.rows;
    inventory = w.inventory;
    worked = w.worked;
    row = Any-map w.rows each a;
  }

  -- So the pass has seen the proof.
  Proven-Saw :
      (p : Pass) (stored : Value) (plan : Plan) (w : Worked u digest minimum_age p stored plan)
      (e : Exited) (h : String) (first : ℕ)
      → Any (Proven u digest minimum_age p w.inventory stored e h first) w.rows
      → Saw u digest minimum_age p e.session_id h
  Proven-Saw p stored plan w e h first proven = record {
    rows = w.rows;
    inventory = w.inventory;
    worked = w.worked;
    row =
        Any-map w.rows
          (λ row q. record {
            named = q.named;
            proof = exited e;
            proven = q.proof_is;
            hashed = q.hashed;
          })
          proven;
  }

  candidate-IsDue :
      (p : Pass) (ps : List Pass) (stored : Value) (plan : Plan)
      (w : Worked u digest minimum_age p stored plan) (c : Candidate)
      → Tells u digest minimum_age ps stored
      → Any (Proposes u digest minimum_age p w.inventory (previous_rows stored) c) w.rows
      → IsDue p ps c
  candidate-IsDue p ps stored plan w (shell_less_phantom id started h first) tells a =
      shows_row p stored plan w id (λ row item fact. is_phantom u id row item fact ≡ true) _
        (phantom_row u digest minimum_age p w.inventory (previous_rows stored) id h started first) a
  candidate-IsDue p ps stored plan w (provider_exited e h first) tells a =
      let proven =
        Any-map w.rows
          (λ row q.
            listed-Proven u digest minimum_age p w.inventory stored e h first row q.session_id
              q.proof q.named q.proven q.listed)
          a in
      let (age, exit_age, hashed, moment) =
        Any-Proven p w.inventory stored e h first w.rows proven in
      let saw = Proven-Saw p stored plan w e h first proven in
      (
        age,
        exit_age,
        hashed,
        shows_row p stored plan w e.session_id
            (λ row item fact. safe_candidate u p.now e.session_id row item fact ≡ some e) _
            (λ row q. (
              q.named,
              proof_of-exited u digest minimum_age p w.inventory e.session_id row e q.proof_is,
            ))
            proven,
        subst (λ n. ObservedSince u digest minimum_age e.session_id h n (p ∷ ps)) (sym moment)
            (first-Observed u digest minimum_age p ps stored e.session_id h tells saw),
      )

-- After any passes, each with what it could read, every close that the next pass proposes is due. A
-- terminal whose provider exited: it passes the safety tests now, the minimum age has passed since
-- the exit, and also since the moment `first`, from which on every pass that did not raise has seen
-- a proof of the same digest. A terminal without a shell: it passes the tests of an absent shell now.
pub plan_auto_close-IsDue :
    (u : Unicode) (digest : Value → String) (minimum_age : ℕ) (ps : List Pass) (p : Pass)
    (plan : Plan)
    → plan_auto_close u digest minimum_age p (stored_after u digest minimum_age ps) ≡ some plan
    → All (IsDue u digest minimum_age p ps) plan.candidates
plan_auto_close-IsDue u digest minimum_age ps p plan h =
    let stored = stored_after u digest minimum_age ps in
    let w = plan_auto_close-Worked u digest minimum_age p stored plan h in
    let proposed =
      plan_rows-Proposed u digest minimum_age p w.inventory (previous_rows stored) w.rows end in
    subst (λ x. All (IsDue u digest minimum_age p ps) x.candidates) (sym w.result)
      (All-map _ _
        (λ c a.
          candidate-IsDue u digest minimum_age p ps stored plan w c
            (stored_after-Tells u digest minimum_age ps) a)
        proposed)
