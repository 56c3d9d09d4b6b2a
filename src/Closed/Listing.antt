-- ===== src/Closed/Listing.antt =====
-- lib/sessionkit_inventory/closed_sessions.py: the list of closed sessions, the newest first.
use session_kit.Base.{
  ℕ, suc, zero, String, Bool, false, ◌&&◌, ◌||◌, List, [], ◌∷◌, Option, none, some, map, ltb, ◌==◌,
  ◌=~◌, if◌then◌else◌,
}
use session_kit.Base.Sort.{sort_by}
use session_kit.Common.Text.{Unicode}
use session_kit.Closed.Ledger.{
  Closed, Entry, Row, Ledger, Result, ok, ◌>>=◌, scan, max_ledger_bytes,
}

-- A row of the table, with the number of its line.
pub record Kept : Type 0 where
  pub closed : Closed
  pub sequence : ℕ

-- `entry["uuid"] or entry["shpool_id"]`
abbrev pub identity : Closed → String
identity c = if c.uuid =~ "" then c.shpool_id else c.uuid

-- The primary key of the table.
abbrev pub same_key : Closed → Closed → Bool
same_key a b = a.provider =~ b.provider && identity a =~ identity b

-- `INSERT … ON CONFLICT DO UPDATE … WHERE excluded.closed_at > closed.closed_at`
unfoldable pub upsert : Kept → List Kept → List Kept
upsert k [] = k ∷ []
upsert k (j ∷ js) =
    let rest = upsert k js in
    if same_key j.closed k.closed
    then (if ltb j.closed.closed_at_unix_ms k.closed.closed_at_unix_ms then k else j) ∷ js
    else j ∷ rest

unfoldable pub retain : ℕ → Option Entry → List Kept → List Kept
retain number none table = table
retain number (some e) table = upsert (record { closed = e.closed; sequence = number }) table

unfoldable pub retain_all : ℕ → List (Row × Option Entry) → List Kept → List Kept
retain_all number [] table = table
retain_all number (r ∷ rs) table = retain_all (suc number) rs (retain number r.1 table)

-- `ORDER BY closed_at DESC, sequence ASC`
unfoldable pub newer : Kept → Kept → Bool
newer j k =
    ltb k.closed.closed_at_unix_ms j.closed.closed_at_unix_ms
    || (k.closed.closed_at_unix_ms == j.closed.closed_at_unix_ms && ltb j.sequence k.sequence)

-- A row of the list, and whether its conversation can come back.
pub record Listed : Type 0 where
  pub closed : Closed
  pub restorable : Bool

abbrev pub listed_of : (String → String → Bool) → Kept → Listed
listed_of readable k = record {
  closed = k.closed;
  restorable =
      if k.closed.provider =~ "shell" then false else readable k.closed.provider k.closed.uuid;
}

abbrev pub take {ℓ} : {A : Type ℓ} → ℕ → List A → List A
take zero xs = []
take (suc n) [] = []
take (suc n) (x ∷ xs) = x ∷ take n xs

abbrev pub limited {ℓ} : {A : Type ℓ} → Option ℕ → List A → List A
limited none xs = xs
limited (some n) xs = take n xs

abbrev pub maximum_of : Bool → Option ℕ
maximum_of allow_large = if allow_large then none else some max_ledger_bytes

-- `still_readable` answers for a conversation's transcript.
unfoldable pub load_closed :
    Unicode → (String → String → Bool) → Option ℕ → Bool → Ledger → Result (List Listed)
load_closed u readable limit allow_large rows = scan u (maximum_of allow_large) rows >>= λ parsed.
    ok (map (listed_of readable) (limited limit (sort_by newer (retain_all 1 parsed []))))
