-- ===== src/Hops/Ledger.antt =====
-- lib/sessionkit_inventory/account_guard.py: the ledger's document and `load_hop_ledger`. What is
-- stored is a document of the right shape, no file, or anything else.
use Prim.Native.String.{◌++◌}
use Prim.Native.Nat.{max}
use session_kit.Base.{
  ℕ, String, Bool, true, false, ◌&&◌, List, [], ◌∷◌, none, some, length, take_last, ltb, ◌==◌, ◌=~◌,
  map, if◌then◌else◌,
}
use session_kit.Base.Result.{Raising}
pub use session_kit.Base.Result.{ok, err, Result-cases, ok-injective, ◌>>=◌}
use session_kit.Base.Assoc.{Dict, lookup}
use session_kit.Json.{str}
use session_kit.Common.{is_provider, valid_uuid}
use session_kit.Common.Text.{Unicode, clean_text}

pub record Hop : Type 0 where
  pub at_unix : ℕ
  pub source : String
  pub target : String
  pub reason : String
  pub state : String
  pub token : String

pub record Notice : Type 0 where
  pub token : String
  pub sentence : String
  pub at_unix : ℕ
  pub delivered : Bool

pub record Thread : Type 0 where
  pub count : ℕ
  pub hops : List Hop
  pub notices : List Notice

-- `ledger["threads"]`, by conversation.
abbrev pub Ledger : Type 0
Ledger = Dict Thread

pub data Stored : Type 0 where
  missing malformed : Stored
  document : Ledger → Stored

pub data Error : Type 0 where
  inexact_conversation unknown_shape too_many_conversations hop_limit_reached : Error

abbrev pub Result {ℓ} : Type ℓ → Type ℓ
Result A = Raising Error A

abbrev pub max_automatic_hops : ℕ
max_automatic_hops = 1

abbrev pub max_ledger_hops : ℕ
max_ledger_hops = 8

abbrev pub max_ledger_threads : ℕ
max_ledger_threads = 4096

-- `a or b` between texts.
abbrev pub or_text : String → String → String
or_text a b = if a =~ "" then b else a

module _ (u : Unicode) where
  abbrev pub clean : String → ℕ → String
  clean s limit = clean_text u (str s) limit

  unfoldable pub clean_hop : Hop → Hop
  clean_hop h = record h {
    source = clean h.source 12;
    target = clean h.target 12;
    reason = clean h.reason 200;
    state = or_text (clean h.state 16) "committed";
    token = clean h.token 32;
  }

  unfoldable pub clean_notice : Notice → Notice
  clean_notice n = record n { token = clean n.token 64; sentence = clean n.sentence 400 }

  -- The notices that still have a token.
  unfoldable pub clean_notices : List Notice → List Notice
  clean_notices [] = []
  clean_notices (n ∷ ns) =
      let rest = clean_notices ns in if clean n.token 64 =~ "" then rest else clean_notice n ∷ rest

  -- The count is never below the hops on record.
  unfoldable pub load_thread : Thread → Thread
  load_thread t = record {
    count = max t.count (length t.hops);
    hops = take_last max_ledger_hops (map clean_hop t.hops);
    notices = take_last max_ledger_hops (clean_notices t.notices);
  }

  abbrev pub load_threads : Ledger → Ledger
  load_threads [] = []
  load_threads (e ∷ l) = (e.0, load_thread e.1) ∷ load_threads l

  unfoldable pub load_hop_ledger : Stored → Result Ledger
  load_hop_ledger missing = ok []
  load_hop_ledger malformed = err unknown_shape
  load_hop_ledger (document l) =
      if ltb max_ledger_threads (length l) then err too_many_conversations else ok (load_threads l)

abbrev pub empty_thread : Thread
empty_thread = record { count = 0; hops = []; notices = [] }

abbrev pub is_empty {ℓ} : {A : Type ℓ} → List A → Bool
is_empty [] = true
is_empty (x ∷ xs) = false

abbrev pub is_empty_thread : Thread → Bool
is_empty_thread t = (t.count == 0) && is_empty t.hops && is_empty t.notices

-- `_prune_empty_threads`: only a row without a move and without a notice goes.
unfoldable pub prune_empty_threads : Ledger → Ledger
prune_empty_threads [] = []
prune_empty_threads (e ∷ l) =
    let rest = prune_empty_threads l in if is_empty_thread e.1 then rest else e ∷ rest

-- `_thread_key`
unfoldable pub thread_key : String → String → Result String
thread_key provider uuid = elim (is_provider (str provider)) [
  | none ↦ err inexact_conversation
  | some p ↦ elim (valid_uuid (str uuid)) [
    | none ↦ err inexact_conversation
    | some exact ↦ ok (p ++ (":" ++ exact))
  ]
]

-- `ledger["threads"].get(key)`, or the thread that `setdefault` puts there.
abbrev pub thread_or_empty : String → Ledger → Thread
thread_or_empty key l = elim (lookup key l) [ none ↦ empty_thread | some t ↦ t ]
