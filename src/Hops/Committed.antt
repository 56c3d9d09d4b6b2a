-- ===== src/Hops/Committed.antt =====
-- account_guard.py, `commit_hop`: what each call does to a conversation whose move is committed.
use session_kit.Base.{
  ℕ, ◌≡◌, String, Bool, false, List, [], ◌∷◌, some, arith, inl, inr, any, find?, leb, ◌=~◌,
  Bool-cases, Option-cases,
}
use session_kit.Base.Assoc.{lookup}
use session_kit.Common.Text.{Unicode}
use session_kit.Hops.Ledger.{
  Hop, Thread, Ledger, Stored, Result-cases, thread_key, load_hop_ledger, clean,
  prune_empty_threads, thread_or_empty, max_automatic_hops,
}
use session_kit.Hops.Operations.{
  Action, load, on_ledger, on_token, ◌>>=◌, begin_in, begin_hop, has_token, mark, mark_thread,
  set_hop_state_in, set_hop_state, commit_hop, is_pending, release_in, release_hop, is_notice,
  add_notice, queue_in, queue_notice, is_owed, deliver_thread, deliver_in, notice_delivered, Call,
  begins, commits, releases, queues, delivers, after, after_all,
}
use session_kit.Hops.Settled.{
  IsSettled, KeepsCommitted, Settled, StillSettled, committed_not_pending, insert-Settled,
  load_hop_ledger-Settled, prune-Settled, same_thread,
}

module _ (u : Unicode) (key : String) (s : Stored) (h : StillSettled key s) where
  begin_in-Settled :
      (hop : Hop) (j : String) (l : Ledger)
      → Settled key l
      → StillSettled key (begin_in u hop j l s).1
  unfolding begin_in
  begin_in-Settled hop j l a =
      let p = prune-Settled key l a in
      elim (Bool-cases (leb max_automatic_hops (thread_or_empty j (prune_empty_threads l)).count)) [
        | inl spent ↦ rw spent h
        | inr free ↦
            rw free (
              insert-Settled key j _ _ p (λ e. absurd (ground (arith, p.found, p.settled.counted))))
      ]

  mark-IsSettled :
      (token : String) (t : Thread) → IsSettled t → IsSettled (mark_thread u token "committed" t)
  unfolding mark_thread
  mark-IsSettled token t a = record {
    hop = mark u token "committed" a.hop;
    one = rw a.one;
    counted = a.counted;
    committed = ground (arith, a.committed);
  }

  commit_in-Settled :
      (j token : String) (l : Ledger)
      → Settled key l
      → StillSettled key (set_hop_state_in u "committed" j token l s).1
  unfolding set_hop_state_in
  commit_in-Settled j token l a = elim (Option-cases (lookup j l)) [
    | inl e ↦ rw (e, set_hop_state_in) h
    | inr (t, e) ↦ elim (Bool-cases (any (has_token u token) t.hops)) [
      | inl found ↦
          rw (e, set_hop_state_in, found)
            (insert-Settled key j _ l a (λ k. mark-IsSettled token t (same_thread key j t l a e k)))
      | inr not_found ↦ rw (e, set_hop_state_in, not_found) h
    ]
  ]

  -- A committed move is not given back.
  not_pending :
      (token : String) (t : Thread)
      → IsSettled t
      → is_pending u (find? (has_token u token) t.hops) ≡ false
  not_pending token t a = rw a.one (ground (arith, a.committed, committed_not_pending))

  release_in-Settled :
      (j token : String) (l : Ledger)
      → Settled key l
      → StillSettled key (release_in u j token l s).1
  unfolding release_in
  release_in-Settled j token l a = elim (Option-cases (lookup j l)) [
    | inl e ↦ rw (e, release_in) h
    | inr (t, e) ↦ elim (Bool-cases (is_pending u (find? (has_token u token) t.hops))) [
      | inl found ↦
          rw (e, release_in, found)
            (prune-Settled key _ (
              insert-Settled key j _ l a
                (λ k. absurd (ground (arith, not_pending token t (same_thread key j t l a e k))))))
      | inr not_found ↦ rw (e, release_in, not_found) h
    ]
  ]

  queue_in-Settled :
      (sentence : String) (now : ℕ) (j token : String) (l : Ledger)
      → Settled key l
      → StillSettled key (queue_in u sentence now j token l s).1
  unfolding queue_in add_notice
  queue_in-Settled sentence now j token l a =
      elim (Bool-cases (any (is_notice u token) (thread_or_empty j l).notices)) [
        | inl found ↦ rw found h
        | inr new ↦ rw new (
            insert-Settled key j _ l a (λ k.
              let e : lookup j l ≡ some a.thread = ground (arith, a.found) in
              let same : thread_or_empty j l ≡ a.thread = rw (e, thread_or_empty) in
              let st = a.settled in
              record {
                hop = st.hop;
                one = rw same st.one;
                counted = rw same st.counted;
                committed = st.committed;
              }))
      ]

  deliver_in-Settled :
      (j token : String) (l : Ledger)
      → Settled key l
      → StillSettled key (deliver_in u j token l s).1
  unfolding deliver_in deliver_thread
  deliver_in-Settled j token l a = elim (Option-cases (lookup j l)) [
    | inl e ↦ rw (e, deliver_in) h
    | inr (t, e) ↦ elim (Bool-cases (any (is_owed u token) t.notices)) [
      | inl found ↦
          rw (e, deliver_in, found)
            (insert-Settled key j _ l a (λ k.
              let st = same_thread key j t l a e k in
              record {
                hop = st.hop;
                one = st.one;
                counted = st.counted;
                committed = st.committed;
              }))
      | inr not_found ↦ rw (e, deliver_in, not_found) h
    ]
  ]

module _ (u : Unicode) (word : KeepsCommitted u) (key : String) (s : Stored)
    (h : StillSettled key s) where
  loaded-Settled :
      {A : Type 0} (f : Ledger → Action A)
      → ((l : Ledger) → Settled key l → StillSettled key (f l s).1)
      → StillSettled key ((load u >>= f) s).1
  loaded-Settled f k = elim (Result-cases (load_hop_ledger u s)) [
    | inl (l, e) ↦ rw (e, ◌>>=◌) (k l (load_hop_ledger-Settled u word key s l h e))
    | inr (e, failed) ↦ rw (failed, ◌>>=◌) h
  ]

  on_ledger-Settled :
      {A : Type 0} (provider uuid : String) (f : String → Ledger → Action A)
      → ((j : String) (l : Ledger) → Settled key l → StillSettled key (f j l s).1)
      → StillSettled key (on_ledger u provider uuid f s).1
  unfolding on_ledger
  on_ledger-Settled provider uuid f k = elim (Result-cases (thread_key provider uuid)) [
    | inl (j, e) ↦ rw (e, ◌>>=◌) (loaded-Settled (f j) (k j))
    | inr (e, failed) ↦ rw (failed, ◌>>=◌) h
  ]

  on_token-Settled :
      (provider uuid token : String) (limit : ℕ) (f : String → String → Ledger → Action Bool)
      → ((j stamp : String) (l : Ledger) → Settled key l → StillSettled key (f j stamp l s).1)
      → StillSettled key (on_token u provider uuid token limit f s).1
  unfolding on_token
  on_token-Settled provider uuid token limit f k = elim (Result-cases (thread_key provider uuid)) [
    | inr (e, failed) ↦ rw (failed, ◌>>=◌) h
    | inl (j, e) ↦ elim (Bool-cases (clean u token limit =~ "")) [
      | inl empty ↦ rw (e, ◌>>=◌, empty) h
      | inr named ↦
          rw (e, ◌>>=◌, named)
            (loaded-Settled (f j (clean u token limit)) (k j (clean u token limit)))
    ]
  ]

  after-Settled : (c : Call u) → StillSettled key (after u c s)
  unfolding after begin_hop commit_hop set_hop_state release_hop queue_notice notice_delivered
  after-Settled (begins p x source target reason now token) =
      on_ledger-Settled p x _ (begin_in-Settled u key s h _)
  after-Settled (commits p x token) = on_token-Settled p x token 32 _ (commit_in-Settled u key s h)
  after-Settled (releases p x token) =
      on_token-Settled p x token 32 _ (release_in-Settled u key s h)
  after-Settled (queues p x token sentence now) =
      on_token-Settled p x token 64 _ (queue_in-Settled u key s h sentence now)
  after-Settled (delivers p x token) =
      on_token-Settled p x token 64 _ (deliver_in-Settled u key s h)

pub after_all-Settled :
    (u : Unicode) (word : KeepsCommitted u) (key : String) (cs : List (Call u)) (s : Stored)
    → StillSettled key s
    → StillSettled key (after_all u cs s)
unfolding after_all
after_all-Settled u word key [] s h = h
after_all-Settled u word key (c ∷ cs) s h =
    after_all-Settled u word key cs (after u c s) (after-Settled u word key s h c)
