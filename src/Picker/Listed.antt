-- ===== src/Picker/Listed.antt =====
-- lib/sessionkit_tui/rows.py: the sessions that the rows of the screen stand for.
use session_kit.Base.{
  ℕ, zero, suc, ◌≡◌, subst, inl, inr, String, true, false, List, [], ◌∷◌, ◌++◌, Option, none, some,
  map, All, All-self, All-append, All-keep_if, Bool-cases, arith,
}
use session_kit.Base.Sort.{sort_by, All-sort_by}
use session_kit.Common.Text.{Unicode}
use session_kit.Picker.Model.{Session, ClosedSession, Inventory, get_elem?}
use session_kit.Picker.Order.{comes_before}
use session_kit.Picker.Rows.{
  Row, Options, order_sessions, needle_of, row_for, row_of, fixed_rows, fixed_kept, kept_sessions,
  session_rows, machine_rows, build_rows, build_closed_rows, closed_rows, keeps,
}
use session_kit.Picker.State.{
  View, Picker, query_of, list_rows, visible_rows, current_row, cursor_index,
}
use session_kit.Picker.Proved.{IsListed}

-- The session that a row stands for, if it stands for one, is listed.
abbrev pub HasListed : Inventory → Option Session → Type 0
HasListed i none = Unit
HasListed i (some s) = IsListed i s

abbrev pub RowListed : Inventory → Row → Type 0
RowListed i r = HasListed i r.session

module _ (u : Unicode) (i : Inventory) where
  All-order_sessions :
      (stall : ℕ) (ss : List Session) (pinned : List String)
      → All (IsListed i) ss
      → All (IsListed i) (order_sessions u stall ss pinned)
  unfolding order_sessions
  All-order_sessions stall ss [] h = All-sort_by _ _ ss h
  All-order_sessions stall ss (k ∷ ks) h =
      All-sort_by _ _ (sort_by (λ s t. comes_before u stall s.raw t.raw) ss) (All-sort_by _ _ ss h)

  All-row_for :
      (marks : List ℕ) (ss : List Session)
      → All (IsListed i) ss
      → All (RowListed i) (map (row_for marks) ss)
  unfolding row_for
  All-row_for marks [] h = tt
  All-row_for marks (s ∷ ss) h = (h.0, All-row_for marks ss h.1)

  All-session_rows :
      (o : Options) (ss : List Session)
      → All (IsListed i) ss
      → All (RowListed i) (session_rows u o ss)
  unfolding session_rows
  All-session_rows o ss h =
      All-row_for o.marks (order_sessions u o.threshold ss o.pinned)
        (All-order_sessions o.threshold ss o.pinned h)

  All-machine_rows :
      (o : Options) (ss : List Session)
      → All (IsListed i) ss
      → All (RowListed i) (machine_rows u o ss)
  unfolding machine_rows session_rows
  All-machine_rows o [] h = tt
  All-machine_rows o (m ∷ ms) h = elim (Bool-cases o.machine_expanded) [
    | inl e ↦ rw (e, All) (tt, All-session_rows o (m ∷ ms) h)
    | inr e ↦ rw (e, All) (tt, tt)
  ]

  All-row_of :
      (rs : List (String × Row)) → All (λ r. RowListed i r.1) rs → All (RowListed i) (map row_of rs)
  All-row_of [] h = tt
  All-row_of (r ∷ rs) h = (h.0, All-row_of rs h.1)

  All-build_rows :
      (o : Options) (ss : List Session)
      → All (IsListed i) ss
      → All (RowListed i) (build_rows u o ss)
  unfolding build_rows
  All-build_rows o ss h =
      All-append _ (session_rows u o (kept_sessions u false (needle_of u o.query) ss))
        (machine_rows u o (kept_sessions u true (needle_of u o.query) ss)
          ++ fixed_kept u (needle_of u o.query))
        (All-session_rows o _ (All-keep_if _ _ ss h))
        (All-append _ (machine_rows u o (kept_sessions u true (needle_of u o.query) ss))
          (fixed_kept u (needle_of u o.query)) (All-machine_rows o _ (All-keep_if _ _ ss h))
          (All-row_of _ (
            All-keep_if (λ r. RowListed i r.1) (λ r. keeps u (needle_of u o.query) (u.casefold r.0))
              fixed_rows (tt, (tt, (tt, (tt, tt)))))))

  All-closed_rows :
      (needle : String) (n : ℕ) (cs : List ClosedSession)
      → All (RowListed i) (closed_rows u needle n cs)
  unfolding closed_rows
  All-closed_rows needle n [] = tt
  All-closed_rows needle n (c ∷ cs) = ground (arith, All-closed_rows needle (suc n) cs)

pub get_elem?-All :
    {A : Type 0} (P : A → Type 0) (n : ℕ) (xs : List A) (x : A)
    → All P xs
    → get_elem? xs n ≡ some x
    → P x
get_elem?-All P n [] x h e = cc
get_elem?-All P zero (y ∷ ys) x h e = let same : y ≡ x = cc in subst P same h.0
get_elem?-All P (suc n) (y ∷ ys) x h e = get_elem?-All P n ys x h.1 e

visible_rows-RowListed :
    (u : Unicode) (p : Picker) (now : ℕ) → All (RowListed p.inventory) (visible_rows u p now)
unfolding visible_rows list_rows build_closed_rows
visible_rows-RowListed u p now = in_view p.view
  where
    in_view :
        (v : View)
        → All (RowListed p.inventory) (elim v as (λ _. List Row) [
          | View.list ↦ list_rows u p now
          | View.closed ↦ build_closed_rows u (query_of p) p.closed
          | View.help ↦ []
        ])
    in_view View.list =
        All-build_rows u p.inventory _ p.inventory.sessions (All-self p.inventory.sessions)
    in_view View.closed = All-closed_rows u p.inventory (needle_of u (query_of p)) 1 p.closed
    in_view View.help = tt

-- The row under the highlight stands for a session that is listed, if it stands for one.
pub current_row-RowListed :
    (u : Unicode) (p : Picker) (now : ℕ) (row : Row)
    → current_row u p now ≡ some row
    → RowListed p.inventory row
unfolding current_row
current_row-RowListed u p now row e =
    get_elem?-All _ (cursor_index u p now) (visible_rows u p now) row
      (visible_rows-RowListed u p now) e
