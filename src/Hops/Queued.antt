-- ===== src/Hops/Queued.antt =====
-- account_guard.py, `queue_notice` and `pending_notices`: a notice that was queued is listed.
use session_kit.Base.{
  ℕ, ◌≡◌, ◌≤◌, refl, sym, ap, subst, inl, inr, String, true, false, List, [], ◌∷◌, some, arith,
  length, take_last, ltb, any, Any, Any-append_right, take_last-snoc, Bool-cases, ◌=~◌, ◌++◌ as ◌⊕◌,
  ◌∙◌,
}
use session_kit.Base.Assoc.{lookup, insert, lookup-insert}
use session_kit.Base.Sort.{sort_by, Any-sort_by}
use session_kit.Json.{str}
use session_kit.Common.{valid_uuid}
use session_kit.Common.Text.{Unicode}
use session_kit.Hops.Ledger.{
  Notice, Thread, Ledger, Stored, document, ok, clean, clean_notice, clean_notices, load_thread,
  load_threads, load_hop_ledger, thread_or_empty, max_ledger_hops, max_ledger_threads,
}
use session_kit.Hops.Operations.{◌>>=◌, is_notice, add_notice, queue_in, queue_notice}
use session_kit.Hops.Settled.{lookup-load_threads}
use session_kit.Hops.Worked.{on_token_worked}
use session_kit.Hops.Pending.{
  Owed, owed, owed_in, is_earlier, pending_notices, OldestFirst, sorted-OldestFirst, Any-owed_in,
  split_key-thread_key,
}

module _ (u : Unicode) where
  -- The cleaning of texts leaves the notice as it is.
  abbrev pub IsClean : Notice → Type 0
  IsClean n =
      (clean u n.token 64 ≡ n.token)
      × (clean u n.sentence 400 ≡ n.sentence)
      × ((n.token =~ "") ≡ false)

  clean_notices-snoc :
      (ns : List Notice) (n : Notice)
      → IsClean n
      → clean_notices u (ns ⊕ (n ∷ [])) ≡ clean_notices u ns ⊕ (n ∷ [])
  unfolding clean_notices clean_notice
  clean_notices-snoc [] n (token, sentence, named) = rw (token, named, sentence) refl
  clean_notices-snoc (m ∷ ns) n c = elim (Bool-cases (clean u m.token 64 =~ "")) [
    | inl e ↦ rw e (clean_notices-snoc ns n c)
    | inr e ↦ rw e (ap (λ l. clean_notice u m ∷ l) (clean_notices-snoc ns n c))
  ]

  -- The notice that was added last is still there when the thread is read back.
  load_thread-notice :
      (t : Thread) (ns : List Notice) (n : Notice)
      → t.notices ≡ ns ⊕ (n ∷ [])
      → IsClean n
      → Any (λ m. m ≡ n) (load_thread u t).notices
  unfolding load_thread
  load_thread-notice t ns n e c =
      let (ms, last) = take_last-snoc 7 (clean_notices u ns) n in
      subst (λ l. Any (λ m. m ≡ n) (take_last max_ledger_hops l))
        (sym (ap (clean_notices u) e ∙ clean_notices-snoc ns n c))
        (subst (Any (λ m. m ≡ n)) (sym last) (Any-append_right (λ m. m ≡ n) ms (n ∷ []) (inl refl)))

  abbrev notice_of : String → String → ℕ → Notice
  notice_of token sentence now = record {
    token = token;
    sentence = clean u sentence 400;
    at_unix = now;
    delivered = false;
  }

  -- What was written has the notice as the last one of the conversation.
  queue_in-written :
      (sentence : String) (now : ℕ) (key token : String) (l l' : Ledger) (s : Stored)
      → queue_in u sentence now key token l s ≡ (ok true, document l')
      → (t : Thread) × (ns : List Notice) × (lookup key l' ≡ some t)
        × (t.notices ≡ ns ⊕ (notice_of token sentence now ∷ []))
  unfolding queue_in add_notice
  queue_in-written sentence now key token l l' s h =
      let t = thread_or_empty key l in
      elim (Bool-cases (any (is_notice u token) t.notices)) [
        | inl known ↦ absurd (ground arith)
        | inr new ↦
            let same : insert key (add_notice u token sentence now t) l ≡ l' = ground arith in
            let (ns, last) = take_last-snoc 7 t.notices (notice_of token sentence now) in
            (
              add_notice u token sentence now t,
              ns,
              rw (← same)
                  (ground (arith, lookup-insert key key (add_notice u token sentence now t) l)),
              last,
            )
      ]

  loaded_within :
      (l : Ledger)
      → length l ≤ max_ledger_threads
      → load_hop_ledger u (document l) ≡ ok (load_threads u l)
  unfolding load_hop_ledger
  loaded_within l h =
      let fits : ltb max_ledger_threads (length l) ≡ false = ground arith in rw fits refl

-- A notice that was queued is listed: after queue_notice succeeded, and while the ledger is not too
-- long to be read, pending_notices returns a list, oldest first, in which the notice stands, with the
-- provider, the UUID, the token, the sentence and the moment of the call, if the cleaning of texts
-- leaves a clean token and a clean sentence as they are.
pub pending_notices-queued :
    (u : Unicode) (provider uuid exact token sentence : String) (now : ℕ) (s : Stored) (l : Ledger)
    → queue_notice u provider uuid token sentence now s ≡ (ok true, document l)
    → valid_uuid (str uuid) ≡ some exact
    → clean u (clean u token 64) 64 ≡ clean u token 64
    → clean u (clean u sentence 400) 400 ≡ clean u sentence 400
    → length l ≤ max_ledger_threads
    → (os : List Owed) × (pending_notices u (document l) ≡ (ok os, document l))
      × OldestFirst os
      × Any
          (λ o. o ≡ record {
            provider = provider;
            uuid = exact;
            token = clean u token 64;
            sentence = clean u sentence 400;
            at_unix = now;
          })
          os
unfolding queue_notice pending_notices
pending_notices-queued u provider uuid exact token sentence now s l h v tokens sentences fits =
    let n = notice_of u (clean u token 64) sentence now in
    let (key, _, named, full, queued) = on_token_worked u provider uuid token 64 _ s _ h in
    let (t, ns, found, last) =
      queue_in-written u sentence now key (clean u token 64) _ l s queued in
    let kept =
      Any-owed_in key n (load_threads u l) (load_thread u t) (lookup-load_threads u key l t found)
        (load_thread-notice u t ns n last (tokens, sentences, full)) refl in
    let listed = Any-sort_by is_earlier (λ o. o ≡ owed key n) (owed_in (load_threads u l)) kept in
    (
      sort_by is_earlier (owed_in (load_threads u l)),
      rw (loaded_within u l fits, ◌>>=◌) refl,
      sorted-OldestFirst _,
      subst
          (λ c.
            Any
              (λ o. o ≡ record {
                provider = c.0;
                uuid = c.1;
                token = clean u token 64;
                sentence = clean u sentence 400;
                at_unix = now;
              })
              (sort_by is_earlier (owed_in (load_threads u l))))
          (split_key-thread_key provider uuid exact key named v) listed,
    )
