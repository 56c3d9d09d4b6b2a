-- ===== src/Hops/Tests.antt =====
-- account_guard.py: runs of the ledger's operations, and the theorems at concrete ledgers.
use session_kit.Base.{
  Any, compare_text, ◌≡◌, ◌≢◌, ◌≤◌, refl, String, Bool, true, false, List, [], ◌∷◌, ◌++◌, some,
  string_dec, ◌=~◌, any, arith,
}
use session_kit.Base.Assoc.{lookup}
use session_kit.Common.Text.{ascii, clean_text}
use session_kit.Common.{valid_uuid, is_provider}
use session_kit.Hops.Ledger.{
  Hop, Notice, Thread, Ledger, Stored, missing, document, ok, clean_hop, clean_notice,
  clean_notices, load_thread, load_hop_ledger, prune_empty_threads, thread_key, thread_or_empty,
  max_automatic_hops,
}
use session_kit.Hops.Operations.{
  on_ledger, on_token, hop_count, reservation, reserve, begin_in, begin_hop, mark_thread,
  set_hop_state_in, set_hop_state, commit_hop, release_hop, is_notice, add_notice, queue_notice,
  queue_in, notice_delivered, deliver_thread, deliver_in, Call, begins, commits, releases, after,
  after_all,
}
use session_kit.Hops.Calls.{hop_count-le-one}
use session_kit.Hops.Single.{IsSafe}
use session_kit.Hops.Settled.{KeepsCommitted}
use session_kit.Hops.Final.{commit_hop-final}
use session_kit.Hops.Release.{Keeps, begin_hop-release_hop}
use session_kit.Hops.Pending.{Owed, owed_in, owed_by, split_key, pending_notices, OldestFirst}
use session_kit.Hops.Queued.{pending_notices-queued}
use session_kit.Base.Sort.{sort_by, place_in}
use session_kit.Json.{str}
use session_kit.Hops.Notices.{notice_delivered-once, queue_in-displaces}

abbrev conversation : String
conversation = "0c5a8f12-1b2c-4d5e-8f90-abcdefabcdef"

abbrev reserved_then_committed : List (Call ascii)
reserved_then_committed =
    begins "claude" conversation "0" "2" "limit" 100 "t1" ∷ commits "claude" conversation "t1" ∷ []

-- A move that is reserved and committed counts once.
one_move :
    (hop_count ascii "claude" conversation (after_all ascii reserved_then_committed missing)).0
    ≡ ok 1
unfolding hop_count on_ledger on_token thread_key load_hop_ledger load_thread clean_hop
    clean_notices prune_empty_threads begin_hop begin_in reservation reserve commit_hop
    set_hop_state set_hop_state_in mark_thread after after_all clean_text valid_uuid is_provider
    string_dec
one_move = refl

hop_count-le-one_example : 1 ≤ max_automatic_hops
hop_count-le-one_example =
    hop_count-le-one ascii reserved_then_committed "claude" conversation one_move

abbrev key : String
key = "claude:0c5a8f12-1b2c-4d5e-8f90-abcdefabcdef"

abbrev hop_in : String → Hop
hop_in state = record {
  at_unix = 100;
  source = "0";
  target = "2";
  reason = "limit";
  state = state;
  token = "t1";
}

abbrev moved : String → Stored
moved state = document ((key, record { count = 1; hops = hop_in state ∷ []; notices = [] }) ∷ [])

committed_word : KeepsCommitted ascii
unfolding clean_text string_dec
committed_word = refl

moved-IsSafe : IsSafe (moved "pending")
moved-IsSafe = (record { counted = refl; single = omega arith }, tt)

moved_committed :
    commit_hop ascii "claude" conversation "t1" (moved "pending") ≡ (ok true, moved "committed")
unfolding hop_count on_ledger on_token thread_key load_hop_ledger load_thread clean_hop
    clean_notices prune_empty_threads begin_hop begin_in reservation reserve commit_hop
    set_hop_state set_hop_state_in mark_thread after after_all clean_text valid_uuid is_provider
    string_dec
moved_committed = refl

commit_hop-final_example :
    (begin_hop ascii "claude" conversation "2" "3" "limit" 200 "t2"
      (after_all ascii (releases "claude" conversation "t1" ∷ []) (moved "committed"))).0
    ≢ ok "t2"
commit_hop-final_example =
    commit_hop-final ascii "claude" conversation "t1" (moved "pending") (moved "committed")
      (releases "claude" conversation "t1" ∷ []) "2" "3" "limit" 200 "t2" committed_word
      moved-IsSafe moved_committed

token_kept : Keeps ascii "t1"
unfolding clean_text string_dec
token_kept = record { word = refl; token_kept = refl; named = refl }

abbrev notice : String → Bool → Notice
notice token delivered = record {
  token = token;
  sentence = "moved";
  at_unix = 100;
  delivered = delivered;
}

abbrev noticed : Stored
noticed = document ((key, record { count = 0; hops = []; notices = notice "n1" false ∷ [] }) ∷ [])

abbrev moved_ledger : Ledger
moved_ledger =
    (key, record { count = 1; hops = hop_in "pending" ∷ []; notices = notice "n1" false ∷ [] }) ∷ []

moved_begun :
    begin_hop ascii "claude" conversation "0" "2" "limit" 100 "t1" noticed
    ≡ (ok "t1", document moved_ledger)
unfolding on_ledger thread_key load_hop_ledger load_thread clean_hop clean_notices clean_notice
    prune_empty_threads begin_hop begin_in reservation reserve clean_text valid_uuid is_provider
    string_dec
moved_begun = refl

moved_loaded : load_hop_ledger ascii (document moved_ledger) ≡ ok moved_ledger
unfolding load_hop_ledger load_thread clean_hop clean_notices clean_notice clean_text string_dec
moved_loaded = refl

noticed-IsSafe : IsSafe noticed
noticed-IsSafe = (record { counted = refl; single = omega arith }, tt)

-- The conversation has a notice, which is still there.
begin_hop-release_hop_example :
    (k : String) × (d : Ledger) × (thread_key "claude" conversation ≡ ok k)
    × (release_hop ascii "claude" conversation "t1" (document moved_ledger) ≡ (ok true, document d))
    × ((thread_or_empty k d).count ≡ 0)
    × ((thread_or_empty k d).hops ≡ [])
    × ((thread_or_empty k d).notices ≡ (thread_or_empty k moved_ledger).notices)
    × ((j : String) → (k =~ j) ≡ false → thread_or_empty j d ≡ thread_or_empty j moved_ledger)
begin_hop-release_hop_example =
    begin_hop-release_hop ascii "claude" conversation "0" "2" "limit" 100 "t1" noticed
      (document moved_ledger) moved_ledger token_kept noticed-IsSafe moved_begun moved_loaded
      (refl, tt)

abbrev told : Bool → Ledger
told delivered = (key, record { count = 0; hops = []; notices = notice "n1" delivered ∷ [] }) ∷ []

told_now :
    notice_delivered ascii "claude" conversation "n1" (document (told false))
    ≡ (ok true, document (told true))
unfolding notice_delivered deliver_in deliver_thread on_token thread_key load_hop_ledger load_thread
    clean_notices clean_notice clean_text valid_uuid is_provider string_dec
told_now = refl

told_loaded : load_hop_ledger ascii (document (told true)) ≡ ok (told true)
unfolding load_hop_ledger load_thread clean_notices clean_notice clean_text string_dec
told_loaded = refl

notice_delivered-once_example :
    (notice_delivered ascii "claude" conversation "n1" (document (told true))
      ≡ (ok false, document (told true)))
    × (queue_notice ascii "claude" conversation "n1" "moved" 200 (document (told true))
        ≡ (ok false, document (told true)))
notice_delivered-once_example =
    notice_delivered-once ascii "claude" conversation "n1" "moved" 200 (document (told false))
      (told true) told_now told_loaded

abbrev seven : List Notice
seven =
    notice "2" false
    ∷ notice "3" false
    ∷ notice "4" false
    ∷ notice "5" false
    ∷ notice "6" false
    ∷ notice "7" false
    ∷ notice "8" false
    ∷ []

abbrev eight : Thread
eight = record { count = 0; hops = []; notices = notice "1" false ∷ seven }

eight_found : lookup key ((key, eight) ∷ []) ≡ some eight
unfolding string_dec
eight_found = refl

ninth_fresh : any (is_notice ascii "9") eight.notices ≡ false
unfolding string_dec
ninth_fresh = refl

queue_in-displaces_example :
    (l' : Ledger) × (t' : Thread) × (new : Notice) × (queue_in ascii "moved" 300 key "9"
        ((key, eight) ∷ [])
        missing
      ≡ (ok true, document l'))
    × (lookup key l' ≡ some t')
    × (t'.notices ≡ seven ++ new ∷ [])
    × (new.token ≡ "9")
    × (new.delivered ≡ false)
queue_in-displaces_example =
    queue_in-displaces ascii "9" key "moved" 300 ((key, eight) ∷ []) missing eight
      (notice "1" false) seven eight_found refl refl ninth_fresh

queued :
    queue_notice ascii "claude" conversation "n1" "moved" 100 missing
    ≡ (ok true, document (told false))
unfolding queue_notice queue_in add_notice on_token thread_key load_hop_ledger clean_text valid_uuid
    is_provider string_dec
queued = refl

exact_conversation : valid_uuid (str conversation) ≡ some conversation
unfolding valid_uuid
exact_conversation = refl

clean_token :
    clean_text ascii (str (clean_text ascii (str "n1") 64)) 64 ≡ clean_text ascii (str "n1") 64
unfolding clean_text string_dec
clean_token = refl

clean_sentence :
    clean_text ascii (str (clean_text ascii (str "moved") 400)) 400
    ≡ clean_text ascii (str "moved") 400
unfolding clean_text string_dec
clean_sentence = refl

abbrev owed_now : Owed
owed_now = record {
  provider = "claude";
  uuid = conversation;
  token = clean_text ascii (str "n1") 64;
  sentence = clean_text ascii (str "moved") 400;
  at_unix = 100;
}

pending_notices-queued_example :
    (os : List Owed) × (pending_notices ascii (document (told false))
      ≡ (ok os, document (told false)))
    × OldestFirst os
    × Any (λ o. o ≡ owed_now) os
pending_notices-queued_example =
    pending_notices-queued ascii "claude" conversation conversation "n1" "moved" 100 missing
      (told false) queued exact_conversation clean_token clean_sentence (omega arith)

-- The notices of two conversations, one of them told.
listed :
    pending_notices ascii (
      document (
        (key, record { count = 0; hops = []; notices = notice "n2" true ∷ notice "n3" false ∷ [] })
        ∷ ("codex:x", record { count = 0; hops = []; notices = notice "n1" false ∷ [] })
        ∷ []))
    ≡ (
      ok (
          record { provider = "codex"; uuid = "x"; token = "n1"; sentence = "moved"; at_unix = 100 }
          ∷ record {
            provider = "claude";
            uuid = conversation;
            token = "n3";
            sentence = "moved";
            at_unix = 100;
          }
          ∷ []),
      document (
          (
            key,
            record { count = 0; hops = []; notices = notice "n2" true ∷ notice "n3" false ∷ [] },
          )
          ∷ ("codex:x", record { count = 0; hops = []; notices = notice "n1" false ∷ [] })
          ∷ []),
    )
unfolding pending_notices owed_in owed_by split_key load_hop_ledger load_thread clean_notices
    clean_notice clean_text sort_by place_in compare_text string_dec
listed = refl
