-- ===== src/Hops/Calls.antt =====
-- account_guard.py, the calls on the ledger: what each does to the count of a conversation.
use session_kit.Base.{
  ℕ, ◌≤◌, ◌≡◌, ap, String, true, false, not, List, [], ◌∷◌, ◌++◌, some, arith, inl, inr, length,
  length-append, any, find?, keep_if, leb, Bool-cases, Option-cases,
}
use session_kit.Base.Assoc.{lookup, insert, All-lookup, All-insert}
use session_kit.Common.Text.{Unicode}
use session_kit.Hops.Ledger.{
  Hop, Thread, Ledger, Stored, missing, ok, Result-cases, thread_key, load_hop_ledger,
  prune_empty_threads, thread_or_empty, max_ledger_hops, max_automatic_hops,
}
use session_kit.Hops.Operations.{
  hop_count, on_ledger, reserve, begin_in, begin_hop, has_token, mark, mark_thread,
  set_hop_state_in, set_hop_state, commit_hop, released, is_pending, release_in, release_hop,
  is_notice, add_notice, queue_in, queue_notice, is_owed, deliver_thread, deliver_in,
  notice_delivered, Call, begins, commits, releases, queues, delivers, after, after_all,
}
use session_kit.Hops.Single.{
  IsSingle, AllSingle, IsSafe, length-map, take_last_all, prune-AllSingle,
  load_hop_ledger-AllSingle, thread_or_empty-IsSingle, on_ledger-IsSafe, on_token-IsSafe,
}

reserve-IsSingle :
    (u : Unicode) (hop : Hop) (t : Thread)
    → IsSingle t
    → leb max_automatic_hops t.count ≡ false
    → IsSingle (reserve u hop t)
unfolding reserve
reserve-IsSingle u hop t s free =
    let one = length-append t.hops (hop ∷ []) in
    let none_yet : t.count ≡ 0 = ground arith in
    let all =
      ap length (take_last_all max_ledger_hops (t.hops ++ hop ∷ []) (omega (arith, s.counted))) in
    record { counted = omega (arith, s.counted); single = omega (arith, s.counted) }

mark_thread-IsSingle :
    (u : Unicode) (token state : String) (t : Thread)
    → IsSingle t
    → IsSingle (mark_thread u token state t)
unfolding mark_thread
mark_thread-IsSingle u token state t s =
    omega (arith, length-map (mark u token state) t.hops, s.counted, s.single)

pending_hops :
    (u : Unicode) (token : String) (hops : List Hop)
    → length hops ≤ 1
    → is_pending u (find? (has_token u token) hops) ≡ true
    → (length hops ≡ 1) × (keep_if (λ h. not (has_token u token h)) hops ≡ [])
pending_hops u token [] l h = cc
pending_hops u token (x ∷ []) l h = ground arith
pending_hops u token (x ∷ y ∷ hops) l h = absurd (omega arith)

released-IsSingle :
    (u : Unicode) (token : String) (t : Thread)
    → IsSingle t
    → is_pending u (find? (has_token u token) t.hops) ≡ true
    → IsSingle (released u token t)
unfolding released
released-IsSingle u token t s h =
    let (one, gone) = pending_hops u token t.hops s.single h in
    record { counted = rw gone (omega (arith, s.counted)); single = rw gone (omega arith) }

insert-AllSingle :
    (key : String) (t : Thread) (l : Ledger) → AllSingle l → IsSingle t → AllSingle (insert key t l)
insert-AllSingle key t l h s = All-insert (λ e. IsSingle e.1) key t l h s

pub lookup-IsSingle :
    (key : String) (t : Thread) (l : Ledger) → AllSingle l → lookup key l ≡ some t → IsSingle t
lookup-IsSingle key t l h e = All-lookup (λ x. IsSingle x.1) key t l h e

module _ (u : Unicode) (s : Stored) (h : IsSafe s) where
  begin_in-IsSafe :
      (hop : Hop) (key : String) (l : Ledger) → AllSingle l → IsSafe (begin_in u hop key l s).1
  unfolding begin_in
  begin_in-IsSafe hop key l a =
      let p = prune-AllSingle l a in
      elim (Bool-cases
        (leb max_automatic_hops (thread_or_empty key (prune_empty_threads l)).count)) [
          | inl spent ↦ rw spent h
          | inr free ↦ rw free (
              insert-AllSingle key _ _ p
                (reserve-IsSingle u hop _ (thread_or_empty-IsSingle key _ p) free))
        ]

  set_hop_state_in-IsSafe :
      (state key token : String) (l : Ledger)
      → AllSingle l
      → IsSafe (set_hop_state_in u state key token l s).1
  unfolding set_hop_state_in
  set_hop_state_in-IsSafe state key token l a = elim (Option-cases (lookup key l)) [
    | inl e ↦ rw (e, set_hop_state_in) h
    | inr (t, e) ↦ elim (Bool-cases (any (has_token u token) t.hops)) [
      | inl found ↦
          rw (e, set_hop_state_in, found)
            (insert-AllSingle key _ l a
              (mark_thread-IsSingle u token state t (lookup-IsSingle key t l a e)))
      | inr not_found ↦ rw (e, set_hop_state_in, not_found) h
    ]
  ]

  release_in-IsSafe :
      (key token : String) (l : Ledger) → AllSingle l → IsSafe (release_in u key token l s).1
  unfolding release_in
  release_in-IsSafe key token l a = elim (Option-cases (lookup key l)) [
    | inl e ↦ rw (e, release_in) h
    | inr (t, e) ↦ elim (Bool-cases (is_pending u (find? (has_token u token) t.hops))) [
      | inl found ↦
          rw (e, release_in, found)
            (prune-AllSingle _ (
              insert-AllSingle key _ l a
                (released-IsSingle u token t (lookup-IsSingle key t l a e) found)))
      | inr not_found ↦ rw (e, release_in, not_found) h
    ]
  ]

  queue_in-IsSafe :
      (sentence : String) (now : ℕ) (key token : String) (l : Ledger)
      → AllSingle l
      → IsSafe (queue_in u sentence now key token l s).1
  unfolding queue_in add_notice
  queue_in-IsSafe sentence now key token l a =
      elim (Bool-cases (any (is_notice u token) (thread_or_empty key l).notices)) [
        | inl found ↦ rw found h
        | inr new ↦
            rw new (insert-AllSingle key _ l a (omega (arith, thread_or_empty-IsSingle key l a)))
      ]

  deliver_in-IsSafe :
      (key token : String) (l : Ledger) → AllSingle l → IsSafe (deliver_in u key token l s).1
  unfolding deliver_in deliver_thread
  deliver_in-IsSafe key token l a = elim (Option-cases (lookup key l)) [
    | inl e ↦ rw (e, deliver_in) h
    | inr (t, e) ↦ elim (Bool-cases (any (is_owed u token) t.notices)) [
      | inl found ↦
          rw (e, deliver_in, found)
            (insert-AllSingle key _ l a (omega (arith, lookup-IsSingle key t l a e)))
      | inr not_found ↦ rw (e, deliver_in, not_found) h
    ]
  ]

  -- Every call keeps the ledger safe, whether it succeeds, refuses or raises.
  pub after-IsSafe : (c : Call u) → IsSafe (after u c s)
  unfolding after begin_hop commit_hop set_hop_state release_hop queue_notice notice_delivered
  after-IsSafe (begins p x source target reason now token) =
      on_ledger-IsSafe u s h p x _ (begin_in-IsSafe _)
  after-IsSafe (commits p x token) =
      on_token-IsSafe u s h p x token 32 _ (set_hop_state_in-IsSafe "committed")
  after-IsSafe (releases p x token) = on_token-IsSafe u s h p x token 32 _ release_in-IsSafe
  after-IsSafe (queues p x token sentence now) =
      on_token-IsSafe u s h p x token 64 _ (queue_in-IsSafe sentence now)
  after-IsSafe (delivers p x token) = on_token-IsSafe u s h p x token 64 _ deliver_in-IsSafe

pub after_all-IsSafe :
    (u : Unicode) (cs : List (Call u)) (s : Stored) → IsSafe s → IsSafe (after_all u cs s)
unfolding after_all
after_all-IsSafe u [] s h = h
after_all-IsSafe u (c ∷ cs) s h = after_all-IsSafe u cs (after u c s) (after-IsSafe u s h c)

-- Whatever calls are made on a ledger that starts empty, in whatever order and for whatever
-- conversations, no conversation is ever on record with more than one automatic move.
pub hop_count-le-one :
    (u : Unicode) (cs : List (Call u)) (provider uuid : String) {n : ℕ}
    → (hop_count u provider uuid (after_all u cs missing)).0 ≡ ok n
    → n ≤ max_automatic_hops
unfolding hop_count on_ledger
hop_count-le-one u cs provider uuid {n} e = elim (Result-cases (thread_key provider uuid)) [
  | inr (x, failed) ↦ absurd (ground arith)
  | inl (key, found) ↦ elim (Result-cases (load_hop_ledger u (after_all u cs missing))) [
    | inr (x, failed) ↦ absurd (ground arith)
    | inl (l, loaded) ↦
        let t =
          thread_or_empty-IsSingle key l
            (load_hop_ledger-AllSingle u _ l (after_all-IsSafe u cs missing tt) loaded) in
        let same : (thread_or_empty key l).count ≡ n = ground arith in
        omega (arith, t.counted, t.single)
  ]
]
