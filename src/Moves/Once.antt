-- ===== src/Moves/Once.antt =====
-- account_guard.py, `plan` after `begin_hop`.
use session_kit.Base.{
  ℕ, ◌≤◌, ◌≡◌, ◌≢◌, refl, sym, ap, subst, ◌∙◌, inl, inr, String, Bool, List, some, arith, leb,
  Bool-cases,
}
use session_kit.Base.Assoc.{lookup, insert, lookup-insert}
use session_kit.Json.{Value}
use session_kit.Common.Text.{Unicode}
use session_kit.Hops.Ledger.{
  Hop, Thread, Ledger, Stored, document, ok, Result-cases, thread_key, load_hop_ledger, load_thread,
  prune_empty_threads, thread_or_empty, max_automatic_hops,
}
use session_kit.Hops.Operations.{on_ledger, hop_count, reservation, reserve, begin_in, begin_hop}
use session_kit.Hops.Worked.{on_ledger_worked, load_hop_ledger-document}
use session_kit.Hops.Settled.{lookup-load_threads}
use session_kit.Moves.Plan.{Candidate, switch, plan}
use session_kit.Moves.Justified.{plan-IsJustified}

module _ (u : Unicode) where
  begin_in_counts :
      (hop : Hop) (key token : String) (l : Ledger) (s s' : Stored)
      → begin_in u hop key l s ≡ (ok token, s')
      → (l' : Ledger) × (t : Thread) × (s' ≡ document l') × (lookup key l' ≡ some t) × (1 ≤ t.count)
  unfolding begin_in reserve
  begin_in_counts hop key token l s s' h =
      let thread = thread_or_empty key (prune_empty_threads l) in
      let t = reserve u hop thread in
      let l' = insert key t (prune_empty_threads l) in
      elim (Bool-cases (leb max_automatic_hops thread.count)) [
        | inl spent ↦ absurd (ground arith)
        | inr free ↦ (
          l',
          t,
          ground arith,
          ground (arith, lookup-insert key key t (prune_empty_threads l)),
          omega arith,
        )
      ]

  load_thread_counts : (t : Thread) → 1 ≤ t.count → 1 ≤ (load_thread u t).count
  unfolding load_thread
  load_thread_counts t h = omega arith

  -- What is counted after the conversation's thread has been written.
  counted :
      (provider uuid key : String) (l' : Ledger) (t : Thread) (n : ℕ)
      → thread_key provider uuid ≡ ok key
      → lookup key l' ≡ some t
      → 1 ≤ t.count
      → (hop_count u provider uuid (document l')).0 ≡ ok n
      → 1 ≤ n
  unfolding hop_count on_ledger
  counted provider uuid key l' t n named found once h =
      elim (Result-cases (load_hop_ledger u (document l'))) [
        | inr (e, failed) ↦ absurd (ground arith)
        | inl (l, loaded) ↦
            let same = load_hop_ledger-document u l' l loaded in
            let e : lookup key l ≡ some (load_thread u t) =
              subst (λ x. lookup key x ≡ some (load_thread u t)) same
                (lookup-load_threads u key l' t found) in
            let is : thread_or_empty key l ≡ load_thread u t = rw (e, thread_or_empty) refl in
            let n_is : (thread_or_empty key l).count ≡ n = ground arith in
            subst (λ x. 1 ≤ x) (sym (ap (λ x. x.count) is) ∙ n_is) (load_thread_counts t once)
      ]

-- After `begin_hop` has succeeded, no plan on what it wrote moves the conversation, whatever the
-- feed, the session and the settings say.
pub begin_hop-plan :
    (u : Unicode) (provider uuid source target reason token : String) (now : ℕ) (s s' : Stored)
    (reserve spent_line : ℕ) (off : Bool) (choices session_row : Value) (source_alias a b : String)
    (cs : List Candidate)
    → begin_hop u provider uuid source target reason now token s ≡ (ok token, s')
    → plan u reserve spent_line
        (hop_count u provider uuid s').0
        off
        choices
        provider
        uuid
        session_row
        source_alias
      ≢ switch a b cs
unfolding begin_hop
begin_hop-plan u provider uuid source target reason token now s s' reserve spent_line off choices
      session_row source_alias a b cs h moved =
    let (key, l, named, read, begun) = on_ledger_worked u provider uuid _ s s' token h in
    let (l', t, stored, found, once) =
      begin_in_counts u (reservation u source target reason now token) key token l s s' begun in
    let justified =
      plan-IsJustified u reserve spent_line (hop_count u provider uuid s').0 off choices provider
        uuid session_row source_alias a b cs moved in
    let zero_hops : (hop_count u provider uuid (document l')).0 ≡ ok 0 =
      ap (λ x. (hop_count u provider uuid x).0) (sym stored) ∙ justified.never_moved in
    let wrong = counted u provider uuid key l' t 0 named found once zero_hops in omega arith
