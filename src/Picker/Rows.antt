-- ===== src/Picker/Rows.antt =====
-- lib/sessionkit_tui/rows.py: the rows of the screen, in their order. The columns that are only
-- drawn are left out. No session is listed twice, so `natural.index` is a session's position.
use session_kit.Base.{
  ℕ, suc, String, Bool, true, false, ◌&&◌, not, List, [], ◌∷◌, ◌++◌, Option, none, some, length,
  keep_if, map, ltb, ◌=~◌, contains, if◌then◌else◌,
}
use session_kit.Base.Sort.{sort_by}
use session_kit.Base.Assoc.{Dict, lookup, insert}
use session_kit.Common.Text.{Unicode}
use session_kit.Selection.Grammar.{strip_left, strip_right}
use session_kit.Picker.Order.{comes_before}
use session_kit.Picker.Marks.{matches}
use session_kit.Picker.Model.{Session, ClosedSession, is_machine, haystack, closed_haystack}

pub data Kind : Type 0 where
  a_session machine_count new_session projects closed_sessions help a_closed_session : Kind

pub record Row : Type 0 where
  pub key : String
  pub kind : Kind
  pub number : Option ℕ
  pub marked : Bool
  pub session : Option Session
  pub closed : Option ClosedSession

-- `query.casefold().strip()`
unfoldable pub needle_of : Unicode → String → String
needle_of u query = strip_right u (strip_left u (u.casefold query))

unfoldable pub places_of : ℕ → List String → Dict ℕ → Dict ℕ
places_of n [] places = places
places_of n (k ∷ ks) places = places_of (suc n) ks (insert k n places)

-- `places.get(item.key, limit)`
unfoldable pub place_of : Dict ℕ → Session → ℕ
place_of places s = elim (lookup s.key places) [ none ↦ length places | some n ↦ n ]

unfoldable pub earlier : Dict ℕ → Session → Session → Bool
earlier places s t = ltb (place_of places s) (place_of places t)

unfoldable pub order_sessions : Unicode → ℕ → List Session → List String → List Session
order_sessions u threshold sessions pinned =
    let natural = sort_by (λ s t. comes_before u threshold s.raw t.raw) sessions in
    elim pinned [ [] ↦ natural | k ∷ ks ↦ sort_by (earlier (places_of 0 (k ∷ ks) [])) natural ]

-- `session.number in marked`
abbrev is_marked : List ℕ → Option ℕ → Bool
is_marked marks none = false
is_marked marks (some n) = contains n marks

unfoldable pub row_for : List ℕ → Session → Row
row_for marks s = record {
  key = s.key;
  kind = a_session;
  number = s.number;
  marked = is_marked marks s.number;
  session = some s;
  closed = none;
}

abbrev pub plain_row : String → Kind → Row
plain_row key kind = record {
  key = key;
  kind = kind;
  number = none;
  marked = false;
  session = none;
  closed = none;
}

abbrev pub keeps : Unicode → String → String → Bool
keeps u needle hay = if needle =~ "" then true else matches u needle hay

-- The rows that are not sessions, with their labels.
abbrev pub fixed_rows : List (String × Row)
fixed_rows =
    ("New session", plain_row "new-session" new_session)
    ∷ ("Projects", plain_row "projects" projects)
    ∷ ("Closed sessions", plain_row "closed" closed_sessions)
    ∷ ("Help", plain_row "help" help)
    ∷ []

abbrev pub row_of : String × Row → Row
row_of r = r.1

abbrev pub fixed_kept : Unicode → String → List Row
fixed_kept u needle = map row_of (keep_if (λ r. keeps u needle (u.casefold r.0)) fixed_rows)

-- What the list is built with.
pub record Options : Type 0 where
  pub query : String
  pub marks : List ℕ
  pub pinned : List String
  pub machine_expanded : Bool
  pub threshold : ℕ

abbrev pub kept_sessions : Unicode → Bool → String → List Session → List Session
kept_sessions u machine needle sessions =
    keep_if
      (λ s. (if machine then is_machine s else not (is_machine s)) && keeps u needle (haystack u s))
      sessions

unfoldable pub session_rows : Unicode → Options → List Session → List Row
session_rows u o sessions = map (row_for o.marks) (order_sessions u o.threshold sessions o.pinned)

unfoldable pub machine_rows : Unicode → Options → List Session → List Row
machine_rows u o [] = []
machine_rows u o (m ∷ ms) =
    plain_row "machine-count" machine_count
    ∷ (if o.machine_expanded then session_rows u o (m ∷ ms) else [])

unfoldable pub build_rows : Unicode → Options → List Session → List Row
build_rows u o sessions =
    let needle = needle_of u o.query in
    session_rows u o (kept_sessions u false needle sessions)
    ++ (machine_rows u o (kept_sessions u true needle sessions) ++ fixed_kept u needle)

-- The closed sessions, numbered from one.
unfoldable pub closed_rows : Unicode → String → ℕ → List ClosedSession → List Row
closed_rows u needle index [] = []
closed_rows u needle index (c ∷ cs) =
    let rest = closed_rows u needle (suc index) cs in
    if keeps u needle (closed_haystack u c)
    then record {
      key = c.key;
      kind = a_closed_session;
      number = some index;
      marked = false;
      session = none;
      closed = some c;
    }
      ∷ rest
    else rest

unfoldable pub build_closed_rows : Unicode → String → List ClosedSession → List Row
build_closed_rows u query closed = closed_rows u (needle_of u query) 1 closed
