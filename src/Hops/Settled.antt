-- ===== src/Hops/Settled.antt =====
-- lib/sessionkit_inventory/account_guard.py: a conversation whose move is committed.
use session_kit.Base.{◌≡◌, refl, String, false, [], ◌∷◌, some, arith, ◌=~◌, string_dec}
use session_kit.Base.Assoc.{lookup, insert, lookup-insert}
use session_kit.Common.Text.{Unicode}
use session_kit.Hops.Ledger.{
  Hop, Thread, Ledger, Stored, missing, malformed, document, ok, load_hop_ledger, load_thread,
  load_threads, clean, clean_hop, prune_empty_threads, is_empty_thread,
}

-- The thread holds one move, and it is committed.
pub record IsSettled (t : Thread) : Type 0 where
  pub hop : Hop
  pub one : t.hops ≡ hop ∷ []
  pub counted : t.count ≡ 1
  pub committed : hop.state ≡ "committed"

pub record Settled (key : String) (l : Ledger) : Type 0 where
  pub thread : Thread
  pub found : lookup key l ≡ some thread
  pub settled : IsSettled thread

abbrev pub StillSettled : String → Stored → Type 0
StillSettled key missing = ⊥
StillSettled key malformed = ⊥
StillSettled key (document l) = Settled key l

-- The cleaning of texts leaves the word alone.
abbrev pub KeepsCommitted : Unicode → Type 0
KeepsCommitted u = clean u "committed" 16 ≡ "committed"

pub lookup-load_threads :
    (u : Unicode) (key : String) (l : Ledger) (t : Thread)
    → lookup key l ≡ some t
    → lookup key (load_threads u l) ≡ some (load_thread u t)
lookup-load_threads u key [] t e = cc
lookup-load_threads u key (x ∷ l) t e = ground (arith, lookup-load_threads u key l t)

module _ (u : Unicode) (word : KeepsCommitted u) where
  load_thread-IsSettled : (t : Thread) → IsSettled t → IsSettled (load_thread u t)
  unfolding load_thread clean_hop string_dec
  load_thread-IsSettled t s = record {
    hop = clean_hop u s.hop;
    one = rw s.one;
    counted = rw (s.one, s.counted);
    committed = rw (s.committed, word);
  }

  pub load_hop_ledger-Settled :
      (key : String) (s : Stored) (l : Ledger)
      → StillSettled key s
      → load_hop_ledger u s ≡ ok l
      → Settled key l
  unfolding load_hop_ledger
  load_hop_ledger-Settled key missing l h e = absurd h
  load_hop_ledger-Settled key malformed l h e = cc
  load_hop_ledger-Settled key (document d) l h e = record {
    thread = load_thread u h.thread;
    found =
        let same : load_threads u d ≡ l = ground arith in
        rw (← same) (lookup-load_threads u key d h.thread h.found);
    settled = load_thread-IsSettled h.thread h.settled;
  }

pub lookup-prune :
    (key : String) (l : Ledger) (t : Thread)
    → lookup key l ≡ some t
    → is_empty_thread t ≡ false
    → lookup key (prune_empty_threads l) ≡ some t
unfolding prune_empty_threads
lookup-prune key [] t e n = cc
lookup-prune key (x ∷ l) t e n = ground (arith, lookup-prune key l t)

pub prune-Settled :
    (key : String) (l : Ledger) → Settled key l → Settled key (prune_empty_threads l)
prune-Settled key l s = record {
  thread = s.thread;
  found = lookup-prune key l s.thread s.found (rw s.settled.counted refl);
  settled = s.settled;
}

-- Writing any thread under another key, or a settled one under this key, keeps it settled.
pub insert-Settled :
    (key j : String) (t : Thread) (l : Ledger)
    → Settled key l
    → ((j ≡ key) → IsSettled t)
    → Settled key (insert j t l)
insert-Settled key j t l s f = elim (string_dec j key) [
  | yes e ↦ record { thread = t; found = ground (arith, lookup-insert j key t l); settled = f e }
  | no ne ↦ record {
    thread = s.thread;
    found = ground (arith, lookup-insert j key t l, s.found);
    settled = s.settled;
  }
]

pub committed_not_pending : ("committed" =~ "pending") ≡ false
unfolding string_dec
committed_not_pending = refl

-- The thread that a lookup finds is the settled one.
pub same_thread :
    (key j : String) (t : Thread) (l : Ledger)
    → (s : Settled key l) → lookup j l ≡ some t
    → j ≡ key
    → IsSettled t
same_thread key j t l s e k =
    let same : s.thread ≡ t = ground (arith, s.found) in rw (← same) s.settled
