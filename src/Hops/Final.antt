-- ===== src/Hops/Final.antt =====
-- account_guard.py, `commit_hop` and `begin_hop`: beginning a move after another was committed.
use session_kit.Base.{
  ℕ, ◌≤◌, ◌≡◌, ◌≢◌, refl, String, true, List, [], ◌∷◌, some, arith, inl, inr, length, map, any,
  Bool-cases, Option-cases,
}
use session_kit.Base.Assoc.{lookup, insert, lookup-insert}
use session_kit.Common.Text.{Unicode}
use session_kit.Hops.Ledger.{
  Hop, Thread, Ledger, Stored, document, ok, err, Error, Result-cases, thread_key, load_hop_ledger,
  clean,
}
use session_kit.Hops.Operations.{
  Action, on_ledger, on_token, ◌>>=◌, reservation, begin_in, begin_hop, has_token, mark,
  mark_thread, set_hop_state_in, set_hop_state, commit_hop, Call, after_all,
}
use session_kit.Hops.Single.{IsSingle, IsSafe, load_hop_ledger-AllSingle}
use session_kit.Hops.Calls.{lookup-IsSingle}
use session_kit.Hops.Committed.{after_all-Settled}
use session_kit.Hops.Settled.{
  IsSettled, Settled, StillSettled, KeepsCommitted, prune-Settled, load_hop_ledger-Settled,
}

module _ (u : Unicode) where
  begin_in_refused :
      (hop : Hop) (key : String) (l : Ledger) (s : Stored) (token : String)
      → Settled key l
      → (begin_in u hop key l s).0 ≢ ok token
  unfolding begin_in
  begin_in_refused hop key l s token a h =
      ground (arith, (prune-Settled key l a).found, (prune-Settled key l a).settled.counted)

  -- What a call does, once its conversation is checked and the ledger is read.
  on_ledger_does :
      {A : Type 0} (provider uuid key : String) (f : String → Ledger → Action A) (l : Ledger)
      (s : Stored)
      → thread_key provider uuid ≡ ok key
      → load_hop_ledger u s ≡ ok l
      → on_ledger u provider uuid f s ≡ f key l s
  unfolding on_ledger
  on_ledger_does provider uuid key f l s named loaded = rw (named, ◌>>=◌, loaded)

  unread :
      {A : Type 0} (provider uuid key : String) (f : String → Ledger → Action A) (s : Stored)
      {e : Error}
      → thread_key provider uuid ≡ ok key
      → load_hop_ledger u s ≡ err e
      → (a : A) → (on_ledger u provider uuid f s).0 ≢ ok a
  unfolding on_ledger
  unread provider uuid key f s named failed a = rw (named, ◌>>=◌, failed) (λ d. cc)

  begin_hop_refused :
      (word : KeepsCommitted u) (provider uuid key source target reason : String) (now : ℕ)
      (token : String) (s : Stored)
      → thread_key provider uuid ≡ ok key
      → StillSettled key s
      → (begin_hop u provider uuid source target reason now token s).0 ≢ ok token
  unfolding begin_hop
  begin_hop_refused word provider uuid key source target reason now token s named h =
      elim (Result-cases (load_hop_ledger u s)) [
        | inr (e, failed) ↦ λ d. unread provider uuid key _ s named failed token d
        | inl (l, loaded) ↦
            rw
              (on_ledger_does provider uuid key
                (begin_in u (reservation u source target reason now token)) l s named loaded)
              (begin_in_refused (reservation u source target reason now token) key l s token
                (load_hop_ledger-Settled u word key s l h loaded))
      ]

  marked_single :
      (token : String) (hops : List Hop)
      → length hops ≤ 1
      → any (has_token u token) hops ≡ true
      → (h : Hop) × (map (mark u token "committed") hops ≡ h ∷ [])
        × (h.state ≡ "committed")
        × (length hops ≡ 1)
  marked_single token [] l h = cc
  marked_single token (x ∷ []) l h = (mark u token "committed" x, refl, ground arith, refl)
  marked_single token (x ∷ y ∷ hops) l h = absurd (omega arith)

  committed_in :
      (token : String) (t : Thread)
      → IsSingle t
      → any (has_token u token) t.hops ≡ true
      → IsSettled (mark_thread u token "committed" t)
  unfolding mark_thread
  committed_in token t s h =
      let (hop, one, done, length_one) = marked_single token t.hops s.single h in
      record { hop = hop; one = one; counted = omega (arith, s.counted); committed = done }

  commit_in_settles :
      (key token : String) (l : Ledger) (s s' : Stored)
      → ((t : Thread) → lookup key l ≡ some t → IsSingle t)
      → set_hop_state_in u "committed" key token l s ≡ (ok true, s')
      → StillSettled key s'
  unfolding set_hop_state_in
  commit_in_settles key token l s s' single h = elim (Option-cases (lookup key l)) [
    | inl e ↦ absurd (ground arith)
    | inr (t, e) ↦ elim (Bool-cases (any (has_token u token) t.hops)) [
      | inr not_found ↦ absurd (ground arith)
      | inl found ↦
          let same : document (insert key (mark_thread u token "committed" t) l) ≡ s' =
            ground arith in
          rw (← same) (record {
            thread = mark_thread u token "committed" t;
            found = ground (arith, lookup-insert key key (mark_thread u token "committed" t) l);
            settled = committed_in token t (single t e) found;
          })
    ]
  ]

  commit_hop_settles :
      (provider uuid token : String) (s s' : Stored)
      → IsSafe s
      → commit_hop u provider uuid token s ≡ (ok true, s')
      → (key : String) × (thread_key provider uuid ≡ ok key) × StillSettled key s'
  unfolding commit_hop set_hop_state on_token
  commit_hop_settles provider uuid token s s' safe h =
      elim (Result-cases (thread_key provider uuid)) [
        | inr (e, failed) ↦ absurd (ground arith)
        | inl (key, named) ↦ elim (Result-cases (load_hop_ledger u s)) [
          | inr (e, failed) ↦ absurd (ground arith)
          | inl (l, loaded) ↦ (
            key,
            named,
            commit_in_settles key (clean u token 32) l s s'
                (λ t e. lookup-IsSingle key t l (load_hop_ledger-AllSingle u s l safe loaded) e)
                (ground arith),
          )
        ]
      ]

-- Once a move is committed, no later calls, in whatever number and order, let its conversation
-- begin another one: the commit can neither be released nor expire.
pub commit_hop-final :
    (u : Unicode) (provider uuid token : String) (s s' : Stored) (cs : List (Call u))
    (source target reason : String) (now : ℕ) (token' : String)
    → KeepsCommitted u
    → IsSafe s
    → commit_hop u provider uuid token s ≡ (ok true, s')
    → (begin_hop u provider uuid source target reason now token' (after_all u cs s')).0 ≢ ok token'
commit_hop-final u provider uuid token s s' cs source target reason now token' word safe h =
    let (key, named, settled) = commit_hop_settles u provider uuid token s s' safe h in
    begin_hop_refused u word provider uuid key source target reason now token' _ named
      (after_all-Settled u word key cs s' settled)
