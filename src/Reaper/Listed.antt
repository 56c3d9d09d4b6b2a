-- ===== src/Reaper/Listed.antt =====
-- reaper.py, `plan_auto_close`: what a close that a row lists says of the row.
use session_kit.Base.{
  ℕ, ◌+◌, ◌≤◌, ◌≡◌, refl, sym, ap, subst, ◌∙◌, inl, inr, String, true, [], ◌∷◌, some, arith, Any,
  ltb, ltb→ge, Bool-cases, Option-cases,
}
use Prim.Native.Nat.{max}
use session_kit.Json.{Value, object, Fields, get, natural, text_of}
use session_kit.Common.{valid_uuid, is_provider}
use session_kit.Common.Text.{Unicode}
use session_kit.Reaper.Candidates.{
  Exited, Proof, exited, phantom, proof_json, safe_candidate, phantom_candidate, exited_proof,
  is_safe, is_phantom,
}
use session_kit.Reaper.Plan.{
  Candidate, provider_exited, shell_less_phantom, Pass, first_verified, proof_of, candidates_of,
  previous_rows,
}
use session_kit.Reaper.Due.{Proposes}

module _ (u : Unicode) (digest : Value → String) (minimum_age : ℕ) where
  safe_candidate_named :
      (now : ℕ) (id : String) (row item fact : Value) (e : Exited)
      → safe_candidate u now id row item fact ≡ some e
      → (e.session_id ≡ id)
        × (valid_uuid (get "uuid" (get "recovery" item)) ≡ some e.uuid)
        × (e.exit_ns ≡ natural (get "provider_exited_at_monotonic_ns" item))
        × (is_safe u now row item fact id e.provider e.uuid ≡ true)
  unfolding safe_candidate
  safe_candidate_named now id row item fact e h =
      elim (Option-cases (is_provider (get "exited_provider" item))) [
        | inl f ↦ absurd (ground arith)
        | inr (provider, f) ↦ elim (Option-cases (valid_uuid (get "uuid" (get "recovery" item)))) [
          | inl g ↦ absurd (ground arith)
          | inr (uuid, g) ↦ elim (Bool-cases (is_safe u now row item fact id provider uuid)) [
            | inr unsafe ↦ absurd (ground arith)
            | inl safe ↦
                let same : exited_proof u row item fact id provider uuid ≡ e = ground arith in
                (
                  ap (λ x. x.session_id) (sym same),
                  g ∙ ap (λ x. some x.uuid) same,
                  ap (λ x. x.exit_ns) (sym same),
                  subst (λ x. is_safe u now row item fact id x.provider x.uuid ≡ true) same safe,
                )
          ]
        ]
      ]

  pub proof_of-exited :
      (p : Pass) (inventory : Fields) (id : String) (row : Value) (e : Exited)
      → proof_of u digest minimum_age p inventory id row ≡ some (exited e)
      → safe_candidate u p.now id row (get id (object inventory)) (get id p.facts) ≡ some e
  unfolding proof_of phantom_candidate
  proof_of-exited p inventory id row e h =
      elim (Option-cases
        (safe_candidate u p.now id row (get id (object inventory)) (get id p.facts))) [
          | inl f ↦
              elim (Bool-cases (is_phantom u id row (get id (object inventory)) (get id p.facts))) [
                | inl q ↦ absurd (ground arith)
                | inr q ↦ absurd (ground arith)
              ]
          | inr (e', f) ↦ ground arith
        ]

  -- What a proposed close says of its row.
  pub record Proven (p : Pass) (inventory : Fields) (stored : Value) (e : Exited)
      (proof_hash : String) (first : ℕ) (row : Value) : Type 0 where
    pub named : text_of (get "name" row) ≡ some e.session_id
    pub proof_is : proof_of u digest minimum_age p inventory e.session_id row ≡ some (exited e)
    pub hashed : digest (proof_json (exited e)) ≡ proof_hash
    pub moment : first ≡ first_verified p.now proof_hash (get e.session_id (previous_rows stored))
    pub exit_age : e.exit_ns + minimum_age ≤ p.now
    pub age : first + minimum_age ≤ p.now

  -- A close is listed for an exited provider when it is old enough.
  candidates_of-exited :
      (now : ℕ) (e : Exited) (h : String) (first : ℕ) (P : Candidate → Type 0)
      → Any P (candidates_of u digest minimum_age now (exited e) h first)
      → P (provider_exited e h first) × (max first e.exit_ns + minimum_age ≤ now)
  unfolding candidates_of
  candidates_of-exited now e h first P a =
      elim (Bool-cases (ltb now (max first e.exit_ns + minimum_age))) [
        | inl young ↦
            let nothing : candidates_of u digest minimum_age now (exited e) h first ≡ [] =
              rw (candidates_of, young) refl in
            absurd (subst (Any P) nothing a)
        | inr old ↦
            let one : candidates_of u digest minimum_age now (exited e) h first
                ≡ provider_exited e h first ∷ [] =
              rw (candidates_of, old) refl in
            elim (subst (Any P) one a) [
              | inr nothing ↦ absurd nothing
              | inl q ↦ (q, ltb→ge now (max first e.exit_ns + minimum_age) old)
            ]
      ]

  exited_listed :
      (now : ℕ) (e e' : Exited) (h proof_hash : String) (first first' : ℕ)
      → Any
          (λ c'. c' ≡ provider_exited e proof_hash first)
          (candidates_of u digest minimum_age now (exited e') h first')
      → (e' ≡ e) × (h ≡ proof_hash) × (first' ≡ first) × (max first e.exit_ns + minimum_age ≤ now)
  exited_listed now e e' h proof_hash first first' a =
      let (q, old) =
        candidates_of-exited now e' h first' (λ c'. c' ≡ provider_exited e proof_hash first) a in
      let same : e' ≡ e = cc in
      let moment : first' ≡ first = cc in
      (
        same,
        cc,
        moment,
        subst (λ x. max first x.exit_ns + minimum_age ≤ now) same (omega (arith, old)),
      )

  pub listed-Proven :
      (p : Pass) (inventory : Fields) (stored : Value) (e : Exited) (proof_hash : String)
      (first : ℕ) (row : Value) (id : String) (proof : Proof)
      → text_of (get "name" row) ≡ some id
      → proof_of u digest minimum_age p inventory id row ≡ some proof
      → (let h = digest (proof_json proof) in
          Any
            (λ c'. c' ≡ provider_exited e proof_hash first)
            (candidates_of u digest minimum_age p.now proof h
              (first_verified p.now h (get id (previous_rows stored)))))
      → Proven p inventory stored e proof_hash first row
  unfolding candidates_of
  listed-Proven p inventory stored e proof_hash first row id (phantom x y) named proven (inl q) = cc
  listed-Proven p inventory stored e proof_hash first row id (phantom x y) named proven (inr q) =
      absurd q
  listed-Proven p inventory stored e proof_hash first row id (exited e') named proven a =
      let h = digest (proof_json (exited e')) in
      let (same, hashes, moments, aged) =
        exited_listed p.now e e' h proof_hash first
          (first_verified p.now h (get id (previous_rows stored))) a in
      let ids =
        (safe_candidate_named p.now id row (get id (object inventory)) (get id p.facts) e'
          (proof_of-exited p inventory id row e' proven)).0 in
      let id_is : id ≡ e.session_id = sym ids ∙ ap (λ x. x.session_id) same in
      record {
        named = named ∙ ap some id_is;
        proof_is =
            subst (λ x. proof_of u digest minimum_age p inventory x row ≡ some (exited e)) id_is
              (proven ∙ ap (λ x. some (exited x)) same);
        hashed = ap (λ x. digest (proof_json (exited x))) (sym same) ∙ hashes;
        moment =
            sym moments
            ∙ ap (λ x. first_verified p.now x (get id (previous_rows stored))) hashes
            ∙ ap (λ x. first_verified p.now proof_hash (get x (previous_rows stored))) id_is;
        exit_age = omega arith;
        age = omega arith;
      }

  -- A phantom's row passes the tests of an absent shell.
  proof_of-phantom :
      (p : Pass) (inventory : Fields) (id sid : String) (row started : Value)
      → proof_of u digest minimum_age p inventory sid row ≡ some (phantom id started)
      → (sid ≡ id) × (is_phantom u sid row (get sid (object inventory)) (get sid p.facts) ≡ true)
  unfolding proof_of phantom_candidate
  proof_of-phantom p inventory id sid row started h =
      elim (Option-cases
        (safe_candidate u p.now sid row (get sid (object inventory)) (get sid p.facts))) [
          | inr (e', f) ↦ absurd (ground arith)
          | inl f ↦
              elim (Bool-cases
                (is_phantom u sid row (get sid (object inventory)) (get sid p.facts))) [
                  | inr q ↦ absurd (ground arith)
                  | inl q ↦ (ground arith, q)
                ]
        ]

  listed-phantom :
      (now : ℕ) (proof : Proof) (id h h' : String) (started : Value) (first first' : ℕ)
      → Any
          (λ c'. c' ≡ shell_less_phantom id started h first)
          (candidates_of u digest minimum_age now proof h' first')
      → proof ≡ phantom id started
  unfolding candidates_of
  listed-phantom now (phantom x y) id h h' started first first' (inl q) = cc
  listed-phantom now (phantom x y) id h h' started first first' (inr q) = absurd q
  listed-phantom now (exited e) id h h' started first first' a =
      let (q, old) =
        candidates_of-exited now e h' first' (λ c'. c' ≡ shell_less_phantom id started h first) a in
      cc

  pub phantom_row :
      (p : Pass) (inventory : Fields) (previous : Value) (id h : String) (started : Value)
      (first : ℕ) (row : Value)
      → Proposes u digest minimum_age p inventory previous
          (shell_less_phantom id started h first)
          row
      → (text_of (get "name" row) ≡ some id)
        × (is_phantom u id row (get id (object inventory)) (get id p.facts) ≡ true)
  phantom_row p inventory previous id h started first row q =
      let is = listed-phantom p.now q.proof id h _ started first _ q.listed in
      let (same, holds) =
        proof_of-phantom p inventory id q.session_id row started (q.proven ∙ ap some is) in
      (
        q.named ∙ ap some same,
        subst (λ x. is_phantom u x row (get x (object inventory)) (get x p.facts) ≡ true) same
            holds,
      )
