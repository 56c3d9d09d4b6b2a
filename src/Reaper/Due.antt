-- ===== src/Reaper/Due.antt =====
-- reaper.py, the loop of `plan_auto_close`: the observation and the candidate of one row.
use session_kit.Base.{
  ℕ, ◌≡◌, refl, sym, subst, ◌⊎◌, inl, inr, String, List, [], ◌∷◌, ◌++◌, some, arith, All, All-self,
  All-append, All-map, Any, string_dec, Option-cases,
}
use session_kit.Json.{
  Value, Fields, field_or_null, set_field, field_or_null-set_field, get, text_of,
}
use session_kit.Common.Text.{Unicode}
use session_kit.Reaper.Candidates.{Proof, proof_json}
use session_kit.Reaper.Plan.{
  Candidate, Pass, first_verified, observation, proof_of, candidates_of, plan_rows,
}

module _ (u : Unicode) (digest : Value → String) (minimum_age : ℕ) (p : Pass)
    (inventory : Fields) where
  -- The row is named so, and it has a proof with this digest.
  pub record Proves (session_id proof_hash : String) (row : Value) : Type 0 where
    pub named : text_of (get "name" row) ≡ some session_id
    pub proof : Proof
    pub proven : proof_of u digest minimum_age p inventory session_id row ≡ some proof
    pub hashed : digest (proof_json proof) ≡ proof_hash

  module _ (previous : Value) where
    -- The row has written this observation.
    pub record Writes (session_id : String) (v : Value) (row : Value) : Type 0 where
      pub proof_hash : String
      pub proves : Proves session_id proof_hash row
      pub written :
          v ≡ observation proof_hash (first_verified p.now proof_hash (get session_id previous))

    abbrev first : String → String → ℕ
    first session_id proof_hash = first_verified p.now proof_hash (get session_id previous)

    -- What a proven row leaves to the rest of the loop, and what it adds to the candidates.
    record Step (row : Value) (rest : List Value) (o : Fields) : Type 0 where
      session_id : String
      proof : Proof
      named : text_of (get "name" row) ≡ some session_id
      proven : proof_of u digest minimum_age p inventory session_id row ≡ some proof
      stepped :
          let h = digest (proof_json proof) in
          let r =
            plan_rows u digest minimum_age p inventory previous rest
              (set_field session_id (observation h (first session_id h)) o) in
          plan_rows u digest minimum_age p inventory previous (row ∷ rest) o
          ≡ (r.0, candidates_of u digest minimum_age p.now proof h (first session_id h) ++ r.1)

    step :
        (row : Value) (rest : List Value) (o : Fields)
        → (plan_rows u digest minimum_age p inventory previous (row ∷ rest) o
            ≡ plan_rows u digest minimum_age p inventory previous rest o)
          ⊎ Step row rest o
    unfolding plan_rows
    step row rest o = elim (Option-cases (text_of (get "name" row))) [
      | inl e ↦ inl (rw (e, plan_rows) refl)
      | inr (sid, e) ↦ elim (Option-cases (proof_of u digest minimum_age p inventory sid row)) [
        | inl f ↦ inl (rw (e, plan_rows, f) refl)
        | inr (proof, f) ↦ inr (record {
          session_id = sid;
          proof = proof;
          named = e;
          proven = f;
          stepped = rw (e, plan_rows, f) refl;
        })
      ]
    ]

    -- The observation of a session after the loop is the one before it, or a row has written it.
    abbrev Kept : String → List Value → Fields → Fields → Type 0
    Kept session_id rows o kept =
        (field_or_null session_id kept ≡ field_or_null session_id o)
        ⊎ Any (Writes session_id (field_or_null session_id kept)) rows

    pub plan_rows-Kept :
        (session_id : String) (rows : List Value) (o : Fields)
        → Kept session_id rows o (plan_rows u digest minimum_age p inventory previous rows o).0
    unfolding plan_rows
    plan_rows-Kept id [] o = inl refl
    plan_rows-Kept id (row ∷ rest) o = elim (step row rest o) [
      | inl e ↦
          subst (λ r. Kept id (row ∷ rest) o r.0) (sym e)
            (elim (plan_rows-Kept id rest o) [ inl k ↦ inl k | inr k ↦ inr (inr k) ])
      | inr s ↦
          let h = digest (proof_json s.proof) in
          let o' = set_field s.session_id (observation h (first s.session_id h)) o in
          let r = plan_rows u digest minimum_age p inventory previous rest o' in
          subst (λ r. Kept id (row ∷ rest) o r.0) (sym s.stepped)
            (elim (plan_rows-Kept id rest o') [
              | inr k ↦ inr (inr k)
              | inl k ↦ elim (string_dec s.session_id id) [
                | no ne ↦ inl (
                    ground (
                      arith,
                      field_or_null-set_field s.session_id id (observation h (first s.session_id h))
                          o,
                    ))
                | yes e ↦ inr (
                    inl (record {
                      proof_hash = h;
                      proves = record {
                        named = ground (arith, s.named);
                        proof = s.proof;
                        proven =
                            subst
                              (λ x. proof_of u digest minimum_age p inventory x row ≡ some s.proof)
                              e s.proven;
                        hashed = refl;
                      };
                      written =
                          subst (λ x. field_or_null id r.0 ≡ observation h (first x h)) e
                            (ground (
                              arith,
                              field_or_null-set_field s.session_id id
                                  (observation h (first s.session_id h)) o,
                            ));
                    }))
              ]
            ])
    ]

    -- A row of this pass has put the candidate there.
    pub record Proposes (c : Candidate) (row : Value) : Type 0 where
      pub session_id : String
      pub proof : Proof
      pub named : text_of (get "name" row) ≡ some session_id
      pub proven : proof_of u digest minimum_age p inventory session_id row ≡ some proof
      pub listed :
          let h = digest (proof_json proof) in
          Any (λ c'. c' ≡ c) (candidates_of u digest minimum_age p.now proof h (first session_id h))

    abbrev Proposed : List Value → List Candidate → Type 0
    Proposed rows = All (λ c. Any (Proposes c) rows)

    pub plan_rows-Proposed :
        (rows : List Value) (o : Fields)
        → Proposed rows (plan_rows u digest minimum_age p inventory previous rows o).1
    unfolding plan_rows
    plan_rows-Proposed [] o = tt
    plan_rows-Proposed (row ∷ rest) o = elim (step row rest o) [
      | inl e ↦
          subst (λ r. Proposed (row ∷ rest) r.1) (sym e)
            (All-map _ _ (λ c a. inr a) (plan_rows-Proposed rest o))
      | inr s ↦
          let h = digest (proof_json s.proof) in
          let o' = set_field s.session_id (observation h (first s.session_id h)) o in
          let new = candidates_of u digest minimum_age p.now s.proof h (first s.session_id h) in
          subst (λ r. Proposed (row ∷ rest) r.1) (sym s.stepped)
            (All-append _ new _
              (All-map _ new
                (λ c a. inl (record {
                  session_id = s.session_id;
                  proof = s.proof;
                  named = s.named;
                  proven = s.proven;
                  listed = a;
                }))
                (All-self new))
              (All-map _ _ (λ c a. inr a) (plan_rows-Proposed rest o')))
    ]
