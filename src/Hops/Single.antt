-- ===== src/Hops/Single.antt =====
-- account_guard.py, `load_hop_ledger` and `_prune_empty_threads`: the count and the moves on record.
use session_kit.Base.{
  ℕ, suc, ◌-◌, ◌≤◌, ◌≡◌, refl, ap, inl, inr, String, Bool, List, [], ◌∷◌, arith, All, length,
  take_last, map, ◌=~◌, Bool-cases, Option-cases,
}
use session_kit.Base.Assoc.{lookup, All-lookup}
use session_kit.Common.Text.{Unicode}
use session_kit.Hops.Ledger.{
  Thread, Ledger, Stored, missing, malformed, document, ok, Result-cases, load_thread, load_threads,
  load_hop_ledger, prune_empty_threads, thread_key, thread_or_empty, clean, clean_hop,
  max_ledger_hops,
}
use session_kit.Hops.Operations.{Action, load, ◌>>=◌, on_ledger, on_token}

-- The count is the number of hops on record, and that is at most one.
pub record IsSingle (t : Thread) : Type 0 where
  pub counted : t.count ≡ length t.hops
  pub single : length t.hops ≤ 1

abbrev pub AllSingle : Ledger → Type 0
AllSingle = All (λ e. IsSingle e.1)

abbrev pub IsSafe : Stored → Type 0
IsSafe missing = Unit
IsSafe malformed = Unit
IsSafe (document l) = AllSingle l

pub length-map {ℓ κ} :
    {A : Type ℓ} {B : Type κ} (f : A → B) (xs : List A) → length (map f xs) ≡ length xs
length-map f [] = refl
length-map f (x ∷ xs) = ap suc (length-map f xs)

pub take_last_all {ℓ} : {A : Type ℓ} (n : ℕ) (xs : List A) → length xs ≤ n → take_last n xs ≡ xs
take_last_all n xs h = let e : length xs - n ≡ 0 = omega arith in rw e

module _ (u : Unicode) where
  load_thread-IsSingle : (t : Thread) → IsSingle t → IsSingle (load_thread u t)
  unfolding load_thread
  load_thread-IsSingle t s =
      let same = length-map (clean_hop u) t.hops in
      let all =
        ap length
          (take_last_all max_ledger_hops (map (clean_hop u) t.hops) (omega (arith, s.single))) in
      record { counted = omega (arith, s.counted); single = omega (arith, s.single) }

  pub load_threads-AllSingle : (l : Ledger) → AllSingle l → AllSingle (load_threads u l)
  load_threads-AllSingle [] h = h
  load_threads-AllSingle (e ∷ l) h = (load_thread-IsSingle e.1 h.0, load_threads-AllSingle l h.1)

  pub load_hop_ledger-AllSingle :
      (s : Stored) (l : Ledger) → IsSafe s → load_hop_ledger u s ≡ ok l → AllSingle l
  unfolding load_hop_ledger
  load_hop_ledger-AllSingle missing l h e = let same : [] ≡ l = cc in rw (← same) tt
  load_hop_ledger-AllSingle malformed l h e = cc
  load_hop_ledger-AllSingle (document d) l h e = ground (arith, load_threads-AllSingle d h)

pub prune-AllSingle : (l : Ledger) → AllSingle l → AllSingle (prune_empty_threads l)
unfolding prune_empty_threads
prune-AllSingle [] h = h
prune-AllSingle (e ∷ l) h = ground (arith, prune-AllSingle l h.1)

pub thread_or_empty-IsSingle :
    (key : String) (l : Ledger) → AllSingle l → IsSingle (thread_or_empty key l)
thread_or_empty-IsSingle key l h = elim (Option-cases (lookup key l)) [
  | inl e ↦ rw (e, thread_or_empty) (omega arith)
  | inr (t, e) ↦ rw (e, thread_or_empty) (All-lookup (λ x. IsSingle x.1) key t l h e)
]

module _ (u : Unicode) (s : Stored) (h : IsSafe s) where
  loaded-IsSafe :
      {A : Type 0} (f : Ledger → Action A)
      → ((l : Ledger) → AllSingle l → IsSafe (f l s).1)
      → IsSafe ((load u >>= f) s).1
  loaded-IsSafe f k = elim (Result-cases (load_hop_ledger u s)) [
    | inl (l, e) ↦ rw (e, ◌>>=◌) (k l (load_hop_ledger-AllSingle u s l h e))
    | inr (e, failed) ↦ rw (failed, ◌>>=◌) h
  ]

  -- A call keeps the ledger safe if what it does with the loaded ledger does.
  pub on_ledger-IsSafe :
      {A : Type 0} (provider uuid : String) (f : String → Ledger → Action A)
      → ((key : String) (l : Ledger) → AllSingle l → IsSafe (f key l s).1)
      → IsSafe (on_ledger u provider uuid f s).1
  unfolding on_ledger
  on_ledger-IsSafe provider uuid f k = elim (Result-cases (thread_key provider uuid)) [
    | inl (key, e) ↦ rw (e, ◌>>=◌) (loaded-IsSafe (f key) (k key))
    | inr (e, failed) ↦ rw (failed, ◌>>=◌) h
  ]

  pub on_token-IsSafe :
      (provider uuid token : String) (limit : ℕ) (f : String → String → Ledger → Action Bool)
      → ((key stamp : String) (l : Ledger) → AllSingle l → IsSafe (f key stamp l s).1)
      → IsSafe (on_token u provider uuid token limit f s).1
  unfolding on_token
  on_token-IsSafe provider uuid token limit f k = elim (Result-cases (thread_key provider uuid)) [
    | inr (e, failed) ↦ rw (failed, ◌>>=◌) h
    | inl (key, e) ↦ elim (Bool-cases (clean u token limit =~ "")) [
      | inl empty ↦ rw (e, ◌>>=◌, empty) h
      | inr named ↦
          rw (e, ◌>>=◌, named)
            (loaded-IsSafe (f key (clean u token limit)) (k key (clean u token limit)))
    ]
  ]
