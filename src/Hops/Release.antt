-- ===== src/Hops/Release.antt =====
-- account_guard.py, `begin_hop` and `release_hop`: a reservation and its release.
use session_kit.Base.{
  ℕ, zero, suc, ◌≡◌, refl, ap, subst, sym, ◌∙◌, String, true, false, List, [], ◌∷◌, none, some,
  =~→eq, =~_refl, if◌then◌else◌, arith, inl, inr, length, find?, leb, ◌=~◌, Bool-cases, string_dec,
}
use session_kit.Base.Assoc.{lookup, insert, lookup-insert}
use session_kit.Common.Text.{Unicode}
use session_kit.Hops.Ledger.{
  Hop, Notice, Thread, Ledger, Stored, document, ok, thread_key, load_hop_ledger, load_thread,
  clean, clean_hop, prune_empty_threads, thread_or_empty, max_automatic_hops, empty_thread,
  is_empty_thread,
}
use session_kit.Hops.Operations.{
  on_token, ◌>>=◌, reserve, reservation, begin_in, begin_hop, has_token, released, is_pending,
  release_in, release_hop,
}
use session_kit.Hops.Worked.{on_ledger_worked, load_hop_ledger-document}
use session_kit.Hops.Settled.{lookup-load_threads}
use session_kit.Hops.Single.{
  IsSingle, AllSingle, IsSafe, load_hop_ledger-AllSingle, prune-AllSingle, thread_or_empty-IsSingle,
}

-- What the cleaning of texts leaves alone: the word `pending` and a token of `uuid4().hex`.
pub record Keeps (u : Unicode) (token : String) : Type 0 where
  pub word : clean u "pending" 16 ≡ "pending"
  pub token_kept : clean u token 32 ≡ token
  pub named : (token =~ "") ≡ false

-- The thread holds one pending move under the token.
record IsPending (token : String) (t : Thread) : Type 0 where
  hop : Hop
  one : t.hops ≡ hop ∷ []
  counted : t.count ≡ 1
  pending : hop.state ≡ "pending"
  mine : hop.token ≡ token

no_hops : (xs : List Hop) → length xs ≡ 0 → xs ≡ []
no_hops [] h = refl
no_hops (x ∷ xs) h = absurd (omega arith)

module _ (u : Unicode) (token : String) (k : Keeps u token) where
  load_thread-IsPending : (t : Thread) → IsPending token t → IsPending token (load_thread u t)
  unfolding load_thread clean_hop string_dec
  load_thread-IsPending t s = record {
    hop = clean_hop u s.hop;
    one = rw s.one;
    counted = rw (s.one, s.counted);
    pending = rw (s.pending, k.word);
    mine = rw (s.mine, k.token_kept);
  }

  reserve-IsPending :
      (source target reason : String) (now : ℕ) (t : Thread)
      → IsSingle t
      → leb max_automatic_hops t.count ≡ false
      → IsPending token (reserve u (reservation u source target reason now token) t)
  unfolding reserve reservation
  reserve-IsPending source target reason now t s free =
      let empty = no_hops t.hops (ground (arith, s.counted)) in
      record {
        hop = reservation u source target reason now token;
        one = rw empty refl;
        counted = ground arith;
        pending = refl;
        mine = refl;
      }

  begin_in-IsPending :
      (source target reason : String) (now : ℕ) (key : String) (l : Ledger) (s s' : Stored)
      → IsSingle (thread_or_empty key (prune_empty_threads l))
      → begin_in u (reservation u source target reason now token) key l s ≡ (ok token, s')
      → (l' : Ledger) × (t : Thread) × (s' ≡ document l')
        × (lookup key l' ≡ some t)
        × IsPending token t
  unfolding begin_in
  begin_in-IsPending source target reason now key l s s' single h =
      let thread = thread_or_empty key (prune_empty_threads l) in
      let t = reserve u (reservation u source target reason now token) thread in
      let l' = insert key t (prune_empty_threads l) in
      elim (Bool-cases (leb max_automatic_hops thread.count)) [
        | inl spent ↦ absurd (ground arith)
        | inr free ↦ (
          l',
          t,
          ground arith,
          ground (arith, lookup-insert key key t (prune_empty_threads l)),
          reserve-IsPending source target reason now thread single free,
        )
      ]

  released-empty :
      (t : Thread)
      → IsPending token t
      → ((released u token t).count ≡ 0)
        × ((released u token t).hops ≡ [])
        × ((released u token t).notices ≡ t.notices)
  unfolding released
  released-empty t p = (omega (arith, p.counted), rw p.one (ground (arith, p.mine)), refl)

  release_in-releases :
      (key : String) (l : Ledger) (t : Thread) (s : Stored)
      → lookup key l ≡ some t
      → IsPending token t
      → release_in u key token l s
        ≡ (ok true, document (prune_empty_threads (insert key (released u token t) l)))
  unfolding release_in
  release_in-releases key l t s e p =
      rw (e, release_in)
        (let hit : is_pending u (find? (has_token u token) t.hops) ≡ true =
            rw p.one (ground (arith, p.mine, p.pending)) in
          rw hit)

  release_hop_does :
      (provider uuid key : String) (l : Ledger) (s : Stored)
      → thread_key provider uuid ≡ ok key
      → load_hop_ledger u s ≡ ok l
      → release_hop u provider uuid token s ≡ release_in u key token l s
  unfolding release_hop on_token
  release_hop_does provider uuid key l s named loaded =
      rw (named, ◌>>=◌, k.token_kept, k.named, loaded)
        (ap (λ x. release_in u key x l s) k.token_kept)

  -- Where the reserved conversation stands when the ledger is read again.
  reserved :
      (source target reason : String) (now : ℕ) (key : String) (l0 l : Ledger) (s s' : Stored)
      → AllSingle l0
      → begin_in u (reservation u source target reason now token) key l0 s ≡ (ok token, s')
      → load_hop_ledger u s' ≡ ok l
      → (t : Thread) × (lookup key l ≡ some t) × IsPending token t
  reserved source target reason now key l0 l s s' single h loaded =
      let (d, t, stored, found, p) =
        begin_in-IsPending source target reason now key l0 s s'
          (thread_or_empty-IsSingle key _ (prune-AllSingle l0 single)) h in
      let same = load_hop_ledger-document u d l (ground arith) in
      (
        load_thread u t,
        rw (← same) (lookup-load_threads u key d t found),
        load_thread-IsPending t p,
      )

-- No conversation stands twice in the ledger.
abbrev pub IsKeyed : Ledger → Type 0
IsKeyed [] = Unit
IsKeyed (e ∷ l) = (lookup e.0 l ≡ none) × IsKeyed l

lookup-insert_absent :
    (j k : String) (t : Thread) (l : Ledger)
    → (k =~ j) ≡ false
    → lookup j l ≡ none
    → lookup j (insert k t l) ≡ none
lookup-insert_absent j k t l d h = lookup-insert k j t l ∙ rw d h

insert-IsKeyed : (k : String) (t : Thread) (l : Ledger) → IsKeyed l → IsKeyed (insert k t l)
insert-IsKeyed k t [] h = (refl, tt)
insert-IsKeyed k t ((j, x) ∷ l) h = elim (Bool-cases (j =~ k)) [
  | inl e ↦ rw e (subst (λ z. lookup z l ≡ none) (=~→eq j k e) h.0, h.1)
  | inr e ↦ rw e (lookup-insert_absent j k t l (differs j k e) h.0, insert-IsKeyed k t l h.1)
]
  where
    differs : (j k : String) → (j =~ k) ≡ false → (k =~ j) ≡ false
    differs j k e = ground arith

lookup-prune_absent :
    (k : String) (l : Ledger) → lookup k l ≡ none → lookup k (prune_empty_threads l) ≡ none
unfolding prune_empty_threads
lookup-prune_absent k [] h = refl
lookup-prune_absent k (e ∷ l) h = ground (arith, lookup-prune_absent k l)

empty_fields :
    (n : ℕ) (hs : List Hop) (ns : List Notice)
    → is_empty_thread (record { count = n; hops = hs; notices = ns }) ≡ true
    → empty_thread ≡ record { count = n; hops = hs; notices = ns }
empty_fields zero [] [] h = refl
empty_fields zero [] (n ∷ ns) h = cc
empty_fields zero (x ∷ hs) ns h = cc
empty_fields (suc n) hs ns h = absurd (ground arith)

empty_thread-is : (t : Thread) → is_empty_thread t ≡ true → empty_thread ≡ t
empty_thread-is t h = empty_fields t.count t.hops t.notices h

-- What is dropped is as good as absent.
thread_or_empty-prune :
    (k : String) (l : Ledger)
    → IsKeyed l
    → thread_or_empty k (prune_empty_threads l) ≡ thread_or_empty k l
unfolding prune_empty_threads
thread_or_empty-prune k [] h = refl
thread_or_empty-prune k ((j, t) ∷ l) h = elim (Bool-cases (is_empty_thread t)) [
  | inr e ↦ elim (Bool-cases (j =~ k)) [
    | inl f ↦ rw (e, f, thread_or_empty) refl
    | inr f ↦ rw (e, f, thread_or_empty) (thread_or_empty-prune k l h.1)
  ]
  | inl e ↦ elim (Bool-cases (j =~ k)) [
    | inr f ↦ rw (e, f, thread_or_empty) (thread_or_empty-prune k l h.1)
    | inl f ↦
        let gone : lookup k (prune_empty_threads l) ≡ none =
          lookup-prune_absent k l (subst (λ z. lookup z l ≡ none) (=~→eq j k f) h.0) in
        rw (e, f, gone, thread_or_empty) (empty_thread-is t e)
  ]
]

thread_or_empty-insert :
    (k j : String) (t : Thread) (l : Ledger)
    → thread_or_empty j (insert k t l) ≡ (if k =~ j then t else thread_or_empty j l)
thread_or_empty-insert k j t l = elim (Bool-cases (k =~ j)) [
  | inl e ↦ rw (thread_or_empty, lookup-insert k j t l, e) refl
  | inr e ↦ rw (thread_or_empty, lookup-insert k j t l, e) refl
]

-- What is read of a conversation after the threads were changed and the empty ones dropped.
thread_or_empty-written :
    (k j : String) (t : Thread) (l : Ledger)
    → IsKeyed l
    → thread_or_empty j (prune_empty_threads (insert k t l))
      ≡ (if k =~ j then t else thread_or_empty j l)
thread_or_empty-written k j t l h =
    thread_or_empty-prune j (insert k t l) (insert-IsKeyed k t l h) ∙ thread_or_empty-insert k j t l

-- A reservation that is given back with its own token is taken off the record: if `begin_hop`
-- succeeds and the ledger that it wrote can be read, and no conversation stands twice in it,
-- `release_hop` succeeds. In the ledger that it writes the conversation has no move, a count of zero,
-- and the notices that it had, and every other conversation is as it was; a conversation with none
-- of these may be left out of it.
pub begin_hop-release_hop :
    (u : Unicode) (provider uuid source target reason : String) (now : ℕ) (token : String)
    (s s' : Stored) (l : Ledger)
    → Keeps u token
    → IsSafe s
    → begin_hop u provider uuid source target reason now token s ≡ (ok token, s')
    → load_hop_ledger u s' ≡ ok l
    → IsKeyed l
    → (key : String) × (d : Ledger) × (thread_key provider uuid ≡ ok key)
      × (release_hop u provider uuid token s' ≡ (ok true, document d))
      × ((thread_or_empty key d).count ≡ 0)
      × ((thread_or_empty key d).hops ≡ [])
      × ((thread_or_empty key d).notices ≡ (thread_or_empty key l).notices)
      × ((j : String) → (key =~ j) ≡ false → thread_or_empty j d ≡ thread_or_empty j l)
unfolding begin_hop
begin_hop-release_hop u provider uuid source target reason now token s s' l k safe h loaded keyed =
    let (key, l0, named, read, begun) = on_ledger_worked u provider uuid _ s s' token h in
    let (t, found, p) =
      reserved u token k source target reason now key l0 l s s'
        (load_hop_ledger-AllSingle u s l0 safe read) begun loaded in
    let r = released u token t in
    let (count, hops, notices) = released-empty u token k t p in
    let own : thread_or_empty key (prune_empty_threads (insert key r l)) ≡ r =
      thread_or_empty-written key key r l keyed ∙ rw (=~_refl key) refl in
    let was : thread_or_empty key l ≡ t = rw (thread_or_empty, found) refl in
    (
      key,
      prune_empty_threads (insert key r l),
      named,
      release_hop_does u token k provider uuid key l s' named loaded
          ∙ release_in-releases u token k key l t s' found p,
      ap (λ x. x.count) own ∙ count,
      ap (λ x. x.hops) own ∙ hops,
      ap (λ x. x.notices) own ∙ notices ∙ ap (λ x. x.notices) (sym was),
      λ j d. thread_or_empty-written key j r l keyed ∙ rw d refl,
    )
