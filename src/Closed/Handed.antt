-- ===== src/Closed/Handed.antt =====
-- lib/session_inventory.py: a shell that ends leaves no tombstone for a conversation that the ledger
-- does not have.
use session_kit.Base.{
  none_no_some, ℕ, ◌≡◌, refl, ◌⊎◌, inl, inr, String, Bool, true, ◌&&◌, ◌||◌, not, Option, none,
  some, Any, Bool-cases, Option-cases, ◌=~◌, arith,
}
use session_kit.Json.{Value, str, get, truthy}
use session_kit.Common.{is_provider}
use session_kit.Common.Text.{Unicode}
use session_kit.Lifecycle.Exits.{load_state}
use session_kit.Lifecycle.Intents.{is_some, record_close_intent}
use session_kit.Closed.Ledger.{Entry, Ledger}
use session_kit.Closed.Shown.{recorded}
use session_kit.Closed.Entered.{IsOf, record_closed_session-IsOf}
use session_kit.Closed.Command.{
  Request, Store, Answer, recorded_close, own_state, close_call, written, close_shell,
  tombstones_after, reported, close_conversation, close_named, close_of_state, closed_command,
  name_of, conversation_of,
}

-- The tombstones are as they were, or one was added, of a conversation that the ledger has a close
-- of; where the close was automatic, of one that can be read back.
abbrev pub Marked :
    Unicode → (String → String → Bool) → (Value → ℕ) → ℕ → Request → Store → Store → Type 0
Marked u readable size retention r s t =
    (t.tombstones ≡ s.tombstones)
    ⊎ ((p : String) × (c : String) × (record_close_intent size (str p) (str c) r.now retention
            s.tombstones
          ≡ some t.tombstones)
        × Any (IsOf p c) (recorded u t.ledger)
        × ((not r.only_with_conversation || readable p c) ≡ true))

-- Where a close is reported, the ledger has it.
abbrev pub Told : Unicode → Answer → Store → Type 0
Told u (recorded_close p c marked readable) t = Any (IsOf p c) (recorded u t.ledger)
Told u _ t = Unit

module _ (u : Unicode) (length_of : Entry → ℕ) (readable : String → String → Bool)
    (size : Value → ℕ) (retention : ℕ) (r : Request) (s : Store) where
  Keeps : Answer × Store → Type 0
  Keeps t = Marked u readable size retention r s t.1 × Told u t.0 t.1

  tombstones_after-some :
      (p c : String) (marks : Value)
      → tombstones_after u length_of readable size retention r s p c ≡ some marks
      → record_close_intent size (str p) (str c) r.now retention s.tombstones ≡ some marks
  tombstones_after-some p c marks h = elim (Bool-cases r.tombstone_fails) [
    | inl f ↦ absurd (none_no_some (rw f at h))
    | inr f ↦ rw f at h
  ]

  reported-Keeps :
      (p c : String) (rows : Ledger) (o : Option Value)
      → tombstones_after u length_of readable size retention r s p c ≡ o
      → Any (IsOf p c) (recorded u rows)
      → (not r.only_with_conversation || readable p c) ≡ true
      → Keeps (reported u length_of readable size retention r s p c rows o)
  unfolding Keeps reported
  reported-Keeps p c rows none e found can = (inl refl, found)
  reported-Keeps p c rows (some marks) e found can =
      (inr (p, c, tombstones_after-some p c marks e, found, can), found)

  close_shell-Keeps : Keeps (close_shell u length_of readable size retention r s)
  unfolding Keeps close_shell
  close_shell-Keeps = elim (Bool-cases r.only_with_conversation) [
    | inl e ↦ rw e (inl refl, tt)
    | inr e ↦
        elim (Option-cases
          (written u length_of readable size retention r s (close_call r "shell" ""))) [
            | inl f ↦ rw (e, f) (inl refl, tt)
            | inr (rows, f) ↦ rw (e, f) (inl refl, tt)
          ]
  ]

  close_conversation-Keeps :
      (p c : String)
      → is_some (is_provider (str p)) ≡ true
      → Keeps (close_conversation u length_of readable size retention r s p c)
  unfolding Keeps close_conversation
  close_conversation-Keeps p c known =
      elim (Bool-cases (r.only_with_conversation && not (readable p c))) [
        | inl e ↦ rw e (inl refl, tt)
        | inr e ↦
            elim (Option-cases
              (written u length_of readable size retention r s (close_call r p c))) [
                | inl f ↦ rw (e, f) (inl refl, tt)
                | inr (rows, f) ↦
                    rw (e, f)
                      (reported-Keeps p c rows _ refl
                        (record_closed_session-IsOf u length_of r.ledger_fails s.inventory
                          (close_call r p c) r.now s.ledger rows known f)
                        (ground arith))
              ]
      ]

  close_named-Keeps :
      (p c : String) → Keeps (close_named u length_of readable size retention r s p c)
  close_named-Keeps p c = elim (Bool-cases (is_some (is_provider (str p)))) [
    | inr e ↦ rw e close_shell-Keeps
    | inl e ↦ elim (Bool-cases (not (c =~ ""))) [
      | inr f ↦ rw (e, f) close_shell-Keeps
      | inl f ↦ rw (e, f) (close_conversation-Keeps p c e)
    ]
  ]

  close_of_state-Keeps :
      (state : Value) → Keeps (close_of_state u length_of readable size retention r s state)
  unfolding Keeps close_of_state
  close_of_state-Keeps state =
      elim (Bool-cases (r.only_with_conversation && truthy (get "keep" state))) [
        | inl e ↦ rw e (inl refl, tt)
        | inr e ↦ rw e (
            close_named-Keeps (name_of (get "provider" state))
              (conversation_of r state (name_of (get "provider" state)) s.exact))
      ]

  -- After a shell recorded its end, the tombstones are as they were, or one was added, of a
  -- conversation that the ledger has a close of and, where the close was automatic, that can be read
  -- back; and where a close of a conversation is reported, the ledger has it.
  pub closed_command-Marked :
      Marked u readable size retention r s
        (closed_command u length_of readable size retention r s).1
      × Told u
          (closed_command u length_of readable size retention r s).0
          (closed_command u length_of readable size retention r s).1
  unfolding Keeps closed_command
  closed_command-Marked = elim (Option-cases (load_state r.key s.state)) [
    | inl e ↦ rw (e, closed_command) (inl refl, tt)
    | inr (state, e) ↦ rw (e, closed_command) (close_of_state-Keeps (own_state r.shell state))
  ]
