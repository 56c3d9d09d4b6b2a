-- ===== src/Hops/Notices.antt =====
-- lib/sessionkit_inventory/account_guard.py, `pending_notices`, and what becomes of a notice.
use session_kit.Base.{
  ℕ, suc, ◌-◌, ◌≡◌, refl, ap, ◌∙◌, false, ◌=~◌, Bool, String, true, List, [], ◌∷◌, ◌++◌, some,
  arith, inl, inr, length, length-append, take_last, map, any, Bool-cases, Option-cases,
}
use session_kit.Base.Assoc.{lookup, insert, lookup-insert}
use session_kit.Common.Text.{Unicode}
use session_kit.Hops.Ledger.{
  Notice, Thread, Ledger, Stored, document, ok, clean, thread_or_empty, thread_key, load_hop_ledger,
  max_ledger_hops,
}
use session_kit.Hops.Worked.{on_token_worked}
use session_kit.Hops.Operations.{
  Action, ◌>>=◌, on_token, notice_delivered, queue_notice, is_notice, add_notice, queue_in, is_owed,
  deliver, deliver_thread, deliver_in,
}

module _ (u : Unicode) (token : String) where
  owed_after : (ns : List Notice) → any (is_owed u token) (map (deliver u token) ns) ≡ false
  owed_after [] = refl
  owed_after (n ∷ ns) = ground (arith, owed_after ns)

  kept_after :
      (ns : List Notice)
      → any (is_notice u token) (map (deliver u token) ns) ≡ any (is_notice u token) ns
  kept_after [] = refl
  kept_after (n ∷ ns) = ground (arith, kept_after ns)

  owed_is_notice :
      (ns : List Notice) → any (is_owed u token) ns ≡ true → any (is_notice u token) ns ≡ true
  owed_is_notice [] h = cc
  owed_is_notice (n ∷ ns) h = ground (arith, owed_is_notice ns)

-- What a call that marked a notice has written.
delivered_in :
    (u : Unicode) (token key : String) (l l' : Ledger) (s : Stored)
    → deliver_in u key token l s ≡ (ok true, document l')
    → (t : Thread) × (any (is_owed u token) t.notices ≡ true)
      × (lookup key l' ≡ some (deliver_thread u token t))
unfolding deliver_in
delivered_in u token key l l' s h = elim (Option-cases (lookup key l)) [
  | inl e ↦ absurd (ground arith)
  | inr (t, e) ↦ elim (Bool-cases (any (is_owed u token) t.notices)) [
    | inr not_found ↦ absurd (ground arith)
    | inl found ↦
        let same : insert key (deliver_thread u token t) l ≡ l' = ground arith in
        (t, found, rw (← same) (ground (arith, lookup-insert key key (deliver_thread u token t) l)))
  ]
]

told_in :
    (u : Unicode) (token key sentence : String) (now : ℕ) (l l' : Ledger) (s s' : Stored)
    → deliver_in u key token l s ≡ (ok true, document l')
    → (deliver_in u key token l' s' ≡ (ok false, s'))
      × (queue_in u sentence now key token l' s' ≡ (ok false, s'))
unfolding deliver_in queue_in deliver_thread
told_in u token key sentence now l l' s s' h =
    let (t, found, written) = delivered_in u token key l l' s h in
    (
      rw (written, deliver_in, owed_after u token t.notices) refl,
      rw
          (
            written,
            thread_or_empty,
            kept_after u token t.notices,
            owed_is_notice u token t.notices found,
          )
          refl,
    )

-- A call with a token, on a ledger that is read as it is stored.
on_token_does :
    (u : Unicode) (provider uuid token key : String) (limit : ℕ)
    (f : String → String → Ledger → Action Bool) (l : Ledger)
    → thread_key provider uuid ≡ ok key
    → (clean u token limit =~ "") ≡ false
    → load_hop_ledger u (document l) ≡ ok l
    → on_token u provider uuid token limit f (document l)
      ≡ f key (clean u token limit) l (document l)
unfolding on_token
on_token_does u provider uuid token key limit f l named full loaded =
    rw (named, ◌>>=◌, full, loaded) refl

-- A notice is told once: after notice_delivered succeeded, and where the next call reads the ledger
-- that it wrote as it was written, recording the delivery again and queueing the notice again both
-- change nothing and report that they did nothing.
pub notice_delivered-once :
    (u : Unicode) (provider uuid token sentence : String) (now : ℕ) (s : Stored) (l : Ledger)
    → notice_delivered u provider uuid token s ≡ (ok true, document l)
    → load_hop_ledger u (document l) ≡ ok l
    → (notice_delivered u provider uuid token (document l) ≡ (ok false, document l))
      × (queue_notice u provider uuid token sentence now (document l) ≡ (ok false, document l))
unfolding notice_delivered queue_notice
notice_delivered-once u provider uuid token sentence now s l h loaded =
    let (key, l0, named, full, done) =
      on_token_worked u provider uuid token 64 (deliver_in u) s (document l) h in
    let (again, queued) = told_in u (clean u token 64) key sentence now l0 l s (document l) done in
    (
      on_token_does u provider uuid token key 64 (deliver_in u) l named full loaded ∙ again,
      on_token_does u provider uuid token key 64 (queue_in u sentence now) l named full loaded
          ∙ queued,
    )

last_eight :
    {A : Type 0} (xs : List A) (x : A) (ys : List A) (y : A)
    → xs ≡ x ∷ ys
    → length xs ≡ max_ledger_hops
    → take_last max_ledger_hops (xs ++ y ∷ []) ≡ ys ++ y ∷ []
last_eight xs x ys y e full = rw e (
    let one : suc (length (ys ++ y ∷ [])) - max_ledger_hops ≡ 1 =
      omega (arith, length-append ys (y ∷ []), ap length e, full) in
    rw one refl)

-- A new notice for a conversation that already keeps eight pushes the oldest one off the record,
-- also when nobody was told of it yet.
pub queue_in-displaces :
    (u : Unicode) (token key sentence : String) (now : ℕ) (l : Ledger) (s : Stored) (t : Thread)
    (n : Notice) (ns : List Notice)
    → lookup key l ≡ some t
    → t.notices ≡ n ∷ ns
    → length t.notices ≡ max_ledger_hops
    → any (is_notice u token) t.notices ≡ false
    → (l' : Ledger) × (t' : Thread) × (new : Notice) × (queue_in u sentence now key token l s
        ≡ (ok true, document l'))
      × (lookup key l' ≡ some t')
      × (t'.notices ≡ ns ++ new ∷ [])
      × (new.token ≡ token)
      × (new.delivered ≡ false)
unfolding queue_in add_notice
queue_in-displaces u token key sentence now l s t n ns e oldest full fresh =
    let new : Notice = record {
      token = token;
      sentence = clean u sentence 400;
      at_unix = now;
      delivered = false;
    } in
    let t' = add_notice u token sentence now t in
    (
      insert key t' l,
      t',
      new,
      rw (e, thread_or_empty, fresh) refl,
      ground (arith, lookup-insert key key t' l),
      last_eight t.notices n ns new oldest full,
      refl,
      refl,
    )
