-- ===== src/Hops/Worked.antt =====
-- account_guard.py: what a call on the ledger has found when it succeeds.
use session_kit.Base.{ℕ, ◌≡◌, String, Bool, true, false, Bool-cases, ◌=~◌, arith, inl, inr}
use session_kit.Common.Text.{Unicode}
use session_kit.Hops.Ledger.{
  Ledger, Stored, document, ok, Result-cases, thread_key, load_hop_ledger, load_threads, clean,
}
use session_kit.Hops.Operations.{Action, on_ledger, on_token}

module _ (u : Unicode) where
  -- A call that succeeds has a conversation and a ledger to work on.
  pub on_ledger_worked :
      {A : Type 0} (provider uuid : String) (f : String → Ledger → Action A) (s s' : Stored) (a : A)
      → on_ledger u provider uuid f s ≡ (ok a, s')
      → (key : String) × (l : Ledger) × (thread_key provider uuid ≡ ok key)
        × (load_hop_ledger u s ≡ ok l)
        × (f key l s ≡ (ok a, s'))
  unfolding on_ledger
  on_ledger_worked provider uuid f s s' a h = elim (Result-cases (thread_key provider uuid)) [
    | inr (e, failed) ↦ absurd (ground arith)
    | inl (key, named) ↦ elim (Result-cases (load_hop_ledger u s)) [
      | inr (e, failed) ↦ absurd (ground arith)
      | inl (l, loaded) ↦ (key, l, named, loaded, ground arith)
    ]
  ]

  pub load_hop_ledger-document :
      (d l : Ledger) → load_hop_ledger u (document d) ≡ ok l → load_threads u d ≡ l
  unfolding load_hop_ledger
  load_hop_ledger-document d l h = ground arith

  -- So does one that names a token; the token is not empty.
  pub on_token_worked :
      (provider uuid token : String) (limit : ℕ) (f : String → String → Ledger → Action Bool)
      (s s' : Stored)
      → on_token u provider uuid token limit f s ≡ (ok true, s')
      → (key : String) × (l : Ledger) × (thread_key provider uuid ≡ ok key)
        × ((clean u token limit =~ "") ≡ false)
        × (f key (clean u token limit) l s ≡ (ok true, s'))
  unfolding on_token
  on_token_worked provider uuid token limit f s s' h =
      elim (Result-cases (thread_key provider uuid)) [
        | inr (e, failed) ↦ absurd (ground arith)
        | inl (key, named) ↦ elim (Bool-cases (clean u token limit =~ "")) [
          | inl empty ↦ absurd (ground arith)
          | inr full ↦ elim (Result-cases (load_hop_ledger u s)) [
            | inr (e, failed) ↦ absurd (ground arith)
            | inl (l, loaded) ↦ (key, l, named, full, ground arith)
          ]
        ]
      ]
