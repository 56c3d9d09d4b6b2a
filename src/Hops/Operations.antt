-- ===== src/Hops/Operations.antt =====
-- lib/sessionkit_inventory/account_guard.py: the operations on the ledger. Each reads, changes and
-- replaces the whole document under one lock, so a call is one step; it returns its result and
-- what is stored after it. A call that raises has written nothing.
use session_kit.Base.{
  ℕ, ◌+◌, ◌-◌, String, Bool, true, false, ◌&&◌, not, List, [], ◌∷◌, ◌++◌, Option, none, some, any,
  find?, keep_if, leb, take_last, map, ◌=~◌, if◌then◌else◌,
}
use session_kit.Base.Assoc.{lookup, insert}
use session_kit.Common.Text.{Unicode}
use session_kit.Hops.Ledger.{
  Hop, Notice, Thread, Ledger, Stored, document, Error, hop_limit_reached, Result, ok, err,
  max_automatic_hops, max_ledger_hops, clean, load_hop_ledger, prune_empty_threads, thread_key,
  thread_or_empty,
}

-- What a call gives back and what is stored after it.
abbrev pub Action : Type 0 → Type 0
Action A = Stored → Result A × Stored

infixl 5 ◌>>=◌
abbrev pub ◌>>=◌ : {A B : Type 0} → Action A → (A → Action B) → Action B
◌>>=◌ m f s = let (r, s') = m s in elim r [ ok a ↦ f a s' | err e ↦ (err e, s') ]

module _ {A : Type 0} where
  abbrev pub returns : A → Action A
  returns a s = (ok a, s)

  abbrev pub raises : Error → Action A
  raises e s = (err e, s)

  abbrev pub lift : Result A → Action A
  lift r s = (r, s)

  abbrev pub write : Ledger → A → Action A
  write l a s = (ok a, document l)

module _ (u : Unicode) where
  abbrev pub load : Action Ledger
  load s = (load_hop_ledger u s, s)

  -- The checked conversation and the ledger, read under the lock.
  unfoldable pub on_ledger :
      {A : Type 0} → String → String → (String → Ledger → Action A) → Action A
  on_ledger provider uuid f = do key ← lift (thread_key provider uuid); ledger ← load; f key ledger

  -- The same for a call that names a token: an empty one is refused before the ledger is read.
  unfoldable pub on_token :
      String → String → String → ℕ → (String → String → Ledger → Action Bool) → Action Bool
  on_token provider uuid token limit f = do
    key ← lift (thread_key provider uuid)
    if clean u token limit =~ ""
        then returns false
        else do ledger ← load; f key (clean u token limit) ledger

  abbrev pub count_in : String → Ledger → Action ℕ
  count_in key ledger = returns (thread_or_empty key ledger).count

  -- How many automatic moves this conversation has been given.
  unfoldable pub hop_count : String → String → Action ℕ
  hop_count provider uuid = on_ledger provider uuid count_in

  -- A reservation: `source`, `target`, `reason` and the moment, under the call's fresh token.
  unfoldable pub reservation : String → String → String → ℕ → String → Hop
  reservation source target reason now token = record {
    at_unix = now;
    source = clean u source 12;
    target = clean u target 12;
    reason = clean u reason 200;
    state = "pending";
    token = token;
  }

  unfoldable pub reserve : Hop → Thread → Thread
  reserve hop t = record t {
    count = t.count + 1;
    hops = take_last max_ledger_hops (t.hops ++ hop ∷ []);
  }

  unfoldable pub begin_in : Hop → String → Ledger → Action String
  begin_in hop key loaded =
      let ledger = prune_empty_threads loaded in
      let thread = thread_or_empty key ledger in
      if leb max_automatic_hops thread.count
      then raises hop_limit_reached
      else write (insert key (reserve hop thread) ledger) hop.token

  -- `token` is the fresh `uuid4().hex` of the call.
  unfoldable pub begin_hop : String → String → String → String → String → ℕ → String → Action String
  begin_hop provider uuid source target reason now token =
      on_ledger provider uuid (begin_in (reservation source target reason now token))

  abbrev pub has_token : String → Hop → Bool
  has_token token h = h.token =~ token

  abbrev pub mark : String → String → Hop → Hop
  mark token state h = if has_token token h then record h { state = state } else h

  unfoldable pub mark_thread : String → String → Thread → Thread
  mark_thread token state t = record t { hops = map (mark token state) t.hops }

  unfoldable pub set_hop_state_in : String → String → String → Ledger → Action Bool
  set_hop_state_in state key token ledger = elim (lookup key ledger) [
    | none ↦ returns false
    | some t ↦
        if any (has_token token) t.hops
        then write (insert key (mark_thread token state t) ledger) true
        else returns false
  ]

  unfoldable pub set_hop_state : String → String → String → String → Action Bool
  set_hop_state provider uuid token state = on_token provider uuid token 32 (set_hop_state_in state)

  unfoldable pub commit_hop : String → String → String → Action Bool
  commit_hop provider uuid token = set_hop_state provider uuid token "committed"

  unfoldable pub released : String → Thread → Thread
  released token t = record t {
    hops = keep_if (λ h. not (has_token token h)) t.hops;
    count = t.count - 1;
  }

  abbrev pub is_pending : Option Hop → Bool
  is_pending none = false
  is_pending (some h) = h.state =~ "pending"

  unfoldable pub release_in : String → String → Ledger → Action Bool
  release_in key token ledger = elim (lookup key ledger) [
    | none ↦ returns false
    | some t ↦
        if is_pending (find? (has_token token) t.hops)
        then write (prune_empty_threads (insert key (released token t) ledger)) true
        else returns false
  ]

  unfoldable pub release_hop : String → String → String → Action Bool
  release_hop provider uuid token = on_token provider uuid token 32 release_in

  abbrev pub is_notice : String → Notice → Bool
  is_notice token n = n.token =~ token

  unfoldable pub add_notice : String → String → ℕ → Thread → Thread
  add_notice token sentence now t = record t {
    notices = take_last max_ledger_hops (
        t.notices
        ++ record {
          token = token;
          sentence = clean u sentence 400;
          at_unix = now;
          delivered = false;
        }
          ∷ []);
  }

  unfoldable pub queue_in : String → ℕ → String → String → Ledger → Action Bool
  queue_in sentence now key token ledger =
      let thread = thread_or_empty key ledger in
      if any (is_notice token) thread.notices
      then returns false
      else write (insert key (add_notice token sentence now thread) ledger) true

  unfoldable pub queue_notice : String → String → String → String → ℕ → Action Bool
  queue_notice provider uuid token sentence now =
      on_token provider uuid token 64 (queue_in sentence now)

  abbrev pub is_owed : String → Notice → Bool
  is_owed token n = is_notice token n && not n.delivered

  abbrev pub deliver : String → Notice → Notice
  deliver token n = if is_owed token n then record n { delivered = true } else n

  unfoldable pub deliver_thread : String → Thread → Thread
  deliver_thread token t = record t { notices = map (deliver token) t.notices }

  unfoldable pub deliver_in : String → String → Ledger → Action Bool
  deliver_in key token ledger = elim (lookup key ledger) [
    | none ↦ returns false
    | some t ↦
        if any (is_owed token) t.notices
        then write (insert key (deliver_thread token t) ledger) true
        else returns false
  ]

  unfoldable pub notice_delivered : String → String → String → Action Bool
  notice_delivered provider uuid token = on_token provider uuid token 64 deliver_in

  -- The calls that change the ledger.
  pub data Call : Type 0 where
    begins : (provider uuid source target reason : String) → ℕ → String → Call
    commits releases : (provider uuid token : String) → Call
    queues : (provider uuid token sentence : String) → ℕ → Call
    delivers : (provider uuid token : String) → Call

  -- What is stored after a call, also if it raised.
  unfoldable pub after : Call → Stored → Stored
  after (begins provider uuid source target reason now token) s =
      (begin_hop provider uuid source target reason now token s).1
  after (commits provider uuid token) s = (commit_hop provider uuid token s).1
  after (releases provider uuid token) s = (release_hop provider uuid token s).1
  after (queues provider uuid token sentence now) s =
      (queue_notice provider uuid token sentence now s).1
  after (delivers provider uuid token) s = (notice_delivered provider uuid token s).1

  unfoldable pub after_all : List Call → Stored → Stored
  after_all [] s = s
  after_all (c ∷ cs) s = after_all cs (after c s)
