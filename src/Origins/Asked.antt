-- ===== src/Origins/Asked.antt =====
-- lib/sessionkit_inventory/origins.py: a restart that was asked for is not taken back.
use Prim.Native.Char.{Char}
use session_kit.Base.{
  ◌≡◌, refl, ◌⊎◌, inl, inr, String, Bool, true, false, ◌&&◌, not, List, [], ◌∷◌, none, Any-keep_if,
  any, Any, ◌=~◌, arith,
}
use session_kit.Json.{Value, str, get}
use session_kit.Origins.Stamps.{text}
use session_kit.Origins.Bounce.{
  Marker, entries, is_marker_of, is_special, is_id, settles, is_settled, bounce_session_id,
  is_receipt_of, provider_is_bouncing, clear_settled_bounce_markers,
}

any-Any :
    (p : Marker → Bool) (m : Marker) (ms : List Marker)
    → p m ≡ true
    → Any (λ n. n ≡ m) ms
    → any p ms ≡ true
any-Any p m [] h a = absurd a
any-Any p m (n ∷ ms) h (inl e) = rw (e, h) refl
any-Any p m (n ∷ ms) h (inr a) = ground (arith, any-Any p m ms h a)

module _ (alnum : Char → Bool) where
  no_receipt :
      (id name : String)
      → bounce_session_id alnum true name ≡ none
      → is_receipt_of alnum id name ≡ false
  no_receipt id name h = rw (h, is_receipt_of) refl

  -- No row settles what is no receipt.
  no_row_settles :
      (name : String) (rows : List Value)
      → bounce_session_id alnum true name ≡ none
      → any (settles alnum name) rows ≡ false
  no_row_settles name [] h = refl
  no_row_settles name (row ∷ rows) h =
      let not_of = no_receipt (text (get "shpool_id_raw" row)) name h in
      let rest = no_row_settles name rows h in ground arith

  stays :
      (rows : List Value) (captured : List String) (m : Marker)
      → (bounce_session_id alnum true m.name ≡ none)
        ⊎ (any (λ name. name =~ m.name) captured ≡ false)
      → not (is_settled alnum rows captured m) ≡ true
  stays rows captured m (inl h) = let none_settles = no_row_settles m.name rows h in ground arith
  stays rows captured m (inr h) = rw h refl

  -- A marker of a session that is no receipt, or a receipt that was not captured before the rows were
  -- read, still says that the session's provider restarts after the settled receipts were removed.
  pub provider_is_bouncing-kept :
      (rows : List Value) (captured : List String) (ms : List Marker) (id : String) (m : Marker)
      → Any (λ n. n ≡ m) ms
      → is_id alnum id ≡ true
      → (is_marker_of alnum id m.name && not (is_special alnum m.kind)) ≡ true
      → (bounce_session_id alnum true m.name ≡ none)
        ⊎ (any (λ name. name =~ m.name) captured ≡ false)
      → provider_is_bouncing alnum
          (clear_settled_bounce_markers alnum rows captured (entries ms))
          (str id)
        ≡ true
  unfolding provider_is_bouncing clear_settled_bounce_markers
  provider_is_bouncing-kept rows captured ms id m present named marks kept = rw named (
      any-Any (λ n. is_marker_of alnum id n.name && not (is_special alnum n.kind)) m _ marks
        (Any-keep_if (λ n. not (is_settled alnum rows captured n)) m ms (stays rows captured m kept)
          present))
