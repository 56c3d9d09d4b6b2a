-- ===== src/Reaper/Plan.antt =====
-- lib/sessionkit_inventory/reaper.py: `_rows`, `_inventory_by_id` and `plan_auto_close`. The
-- SHA-256 of a proof's JSON is a parameter; a raised error is `none`.
use session_kit.Base.{
  ℕ, ◌+◌, String, Bool, true, ◌&&◌, not, List, [], ◌∷◌, ◌++◌, Option, none, some, ltb, all_of,
  if◌then◌else◌,
}
use Prim.Native.Nat.{max}
use session_kit.Base.Int.{pos}
use session_kit.Json.{
  Value, null, int, str, object, Fields, end, field, set_field, has_field, get, is_mapping, is_list,
  is_false, is_text, is_positive_int, natural, text_of, truthy, elements, equal,
}
use session_kit.Common.Text.{Unicode}
use session_kit.Reaper.Candidates.{
  Exited, Proof, exited, phantom, proof_json, safe_candidate, phantom_candidate,
}

-- Every element is a dict.
abbrev pub all_mappings : List Value → Bool
all_mappings [] = true
all_mappings (v ∷ vs) = is_mapping v && all_mappings vs

abbrev listed : Value → Option (List Value)
listed v = if is_list v && all_mappings (elements v) then some (elements v) else none

-- `_rows`
unfoldable pub rows_of : Value → Option (List Value)
rows_of payload = if is_mapping payload then listed (get "sessions" payload) else listed payload

unfoldable pub index_rows : List Value → Fields → Option Fields
index_rows [] result = some result
index_rows (item ∷ rest) result = elim (text_of (get "shpool_id_raw" item)) [
  | none ↦ none
  | some session_id ↦
      if is_mapping item && not (has_field session_id result)
      then index_rows rest (set_field session_id item result)
      else none
]

-- `_inventory_by_id`
unfoldable pub inventory_by_id : Value → Option Fields
inventory_by_id inventory =
    let sessions = get "sessions" inventory in
    if all_of (
      is_text "live" (get "source" inventory)
      ∷ is_false (get "stale" inventory)
      ∷ not (truthy (get "warnings" inventory))
      ∷ is_list sessions
      ∷ [])
    then index_rows (elements sessions) end
    else none

pub data Candidate : Type 0 where
  provider_exited : Exited → String → ℕ → Candidate
  shell_less_phantom : String → Value → String → ℕ → Candidate

pub record Plan : Type 0 where
  pub observations : Value
  pub candidates : List Candidate

-- What one pass reads: the daemon's list, the inventory, the process facts, and the clock.
pub record Pass : Type 0 where
  pub payload : Value
  pub inventory : Value
  pub facts : Value
  pub now : ℕ

-- `previous["observations"]`, where it has one.
unfoldable pub previous_rows : Value → Value
previous_rows previous =
    if equal (get "schema_version" previous) (int (pos 1))
      && is_mapping (get "observations" previous)
    then get "observations" previous
    else object end

unfoldable pub is_known : String → Value → Bool
is_known proof_hash prior =
    is_mapping prior
    && is_text proof_hash (get "proof_hash" prior)
    && is_positive_int (get "first_verified_monotonic_ns" prior)

-- When this proof was first observed without a break.
unfoldable pub first_verified : ℕ → String → Value → ℕ
first_verified now proof_hash prior =
    if is_known proof_hash prior then natural (get "first_verified_monotonic_ns" prior) else now

unfoldable pub observation : String → ℕ → Value
observation proof_hash first = object (
    field "proof_hash" (str proof_hash) (field "first_verified_monotonic_ns" (int (pos first)) end))

unfoldable pub document : ℕ → Fields → Value
document now observations = object (
    field "schema_version" (int (pos 1)) (
      field "observed_at_monotonic_ns" (int (pos now))
        (field "observations" (object observations) end)))

module _ (u : Unicode) (digest : Value → String) (minimum_age : ℕ) where
  -- The proof of one row, if there is one: a provider's exit first, an absent shell after it.
  unfoldable pub proof_of : Pass → Fields → String → Value → Option Proof
  proof_of p inventory session_id row =
      let item = get session_id (object inventory) in
      let fact = get session_id p.facts in
      elim (safe_candidate u p.now session_id row item fact) [
        | some e ↦ some (exited e)
        | none ↦ phantom_candidate u session_id row item fact
      ]

  -- What a proven row adds to the candidates.
  unfoldable pub candidates_of : ℕ → Proof → String → ℕ → List Candidate
  candidates_of now (phantom session_id started) proof_hash first =
      shell_less_phantom session_id started proof_hash first ∷ []
  candidates_of now (exited e) proof_hash first =
      if ltb now (max first e.exit_ns + minimum_age)
      then []
      else provider_exited e proof_hash first ∷ []

  -- The loop over the daemon's rows.
  unfoldable pub plan_rows : Pass → Fields → Value → List Value → Fields → Fields × List Candidate
  plan_rows p inventory previous [] observations = (observations, [])
  plan_rows p inventory previous (row ∷ rest) observations = elim (text_of (get "name" row)) [
    | none ↦ plan_rows p inventory previous rest observations
    | some session_id ↦ elim (proof_of p inventory session_id row) [
      | none ↦ plan_rows p inventory previous rest observations
      | some proof ↦
          let proof_hash = digest (proof_json proof) in
          let first = first_verified p.now proof_hash (get session_id previous) in
          let (kept, due) =
            plan_rows p inventory previous rest
              (set_field session_id (observation proof_hash first) observations) in
          (kept, candidates_of p.now proof proof_hash first ++ due)
    ]
  ]

  -- What a pass works on, where its arguments are accepted.
  unfoldable pub work_of : Pass → Option (List Value × Fields)
  work_of p =
      if ltb 0 p.now && ltb 0 minimum_age
      then (elim (inventory_by_id p.inventory) [
        | none ↦ none
        | some inventory ↦ elim (rows_of p.payload) [
          | none ↦ none
          | some rows ↦ some (rows, inventory)
        ]
      ])
      else none

  unfoldable pub plan_auto_close : Pass → Value → Option Plan
  plan_auto_close p previous = elim (work_of p) [
    | none ↦ none
    | some work ↦
        let (kept, due) = plan_rows p work.1 (previous_rows previous) work.0 end in
        some (record { observations = document p.now kept; candidates = due })
  ]

  -- The stored observations after some passes, the latest first. A pass that raises stores nothing.
  unfoldable pub stored_after : List Pass → Value
  stored_after [] = null
  stored_after (p ∷ earlier) =
      let before = stored_after earlier in
      elim (plan_auto_close p before) [ none ↦ before | some plan ↦ plan.observations ]
