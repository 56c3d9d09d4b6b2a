-- ===== src/Origins/Bounce.antt =====
-- lib/sessionkit_inventory/origins.py: the markers of providers that the kit restarts. The directory
-- is a list of its entries; `alnum` is Python's table of letters and digits.
use Prim.Native.Char.{Char}
use Prim.Native.String.{◌++◌}
use session_kit.Base.{
  String, Bool, true, false, ◌&&◌, ◌||◌, not, List, [], Option, none, some, keep_if, any, map, ◌=~◌,
  if◌then◌else◌,
}
use session_kit.Json.{Value, get, is_mapping, is_true}
use session_kit.Common.Text.{strip, contains_text}
use session_kit.Origins.Stamps.{text}

pub data MarkerKind : Type 0 where
  regular special unreadable : MarkerKind

pub record Marker : Type 0 where
  pub name : String
  pub kind : MarkerKind

pub data Directory : Type 0 where
  absent closed : Directory
  entries : List Marker → Directory

abbrev taken_suffix : String
taken_suffix = ".taken"

abbrev separator : String
separator = ".taken."

abbrev reservation_prefix : String
reservation_prefix = ".generation."

-- `s.split(sep, 1)`, where the separator is in the text.
abbrev split_once : String → String → Option (String × String)
split_once sep String.[] = none
split_once sep (String.◌∷◌ c s) =
    let rest = split_once sep s in
    elim (strip sep (String.◌∷◌ c s)) [
      | some after ↦ some ("", after)
      | none ↦ elim rest [ none ↦ none | some (a, b) ↦ some (String.◌∷◌ c a, b) ]
    ]

abbrev without_end : String → String → Option String
without_end suffix String.[] = none
without_end suffix (String.◌∷◌ c s) =
    let rest = without_end suffix s in
    if String.◌∷◌ c s =~ suffix
    then some ""
    else elim rest as (λ _. Option String) [ none ↦ none | some a ↦ some (String.◌∷◌ c a) ]

abbrev all_chars : (Char → Bool) → String → Bool
all_chars p String.[] = true
all_chars p (String.◌∷◌ c s) = p c && all_chars p s

abbrev starts_with : String → String → Bool
starts_with p s = elim (strip p s) [ none ↦ false | some _ ↦ true ]

module _ (alnum : Char → Bool) where
  abbrev owner : String → Option String
  owner name = elim (split_once separator name) [
    | none ↦ none
    | some (id, generation) ↦
        if not (id =~ "") && not (generation =~ "") && all_chars alnum generation
        then some id
        else none
  ]

  -- The name of a request or of a receipt that can be used again.
  abbrev plain_owner : String → Option String
  plain_owner name = elim (without_end taken_suffix name) [
    | some id ↦ if id =~ "" then none else some id
    | none ↦ if starts_with "." name then none else some name
  ]

  abbrev named_owner : Bool → String → Option String
  named_owner generated_only name = elim (split_once separator name) [
    | some _ ↦ owner name
    | none ↦ if generated_only then none else plain_owner name
  ]

  -- `_bounce_session_id`
  unfoldable pub bounce_session_id : Bool → String → Option String
  bounce_session_id generated_only name =
      if name =~ "" || contains_text name "/" then none else elim (strip reservation_prefix name) [
        | some reserved ↦ if generated_only then none else owner reserved
        | none ↦ named_owner generated_only name
      ]

  abbrev pub is_receipt_of : String → String → Bool
  is_receipt_of id name = elim (bounce_session_id true name) [ none ↦ false | some o ↦ o =~ id ]

  abbrev pub is_marker_of : String → String → Bool
  is_marker_of id name = name =~ id || name =~ (id ++ taken_suffix) || is_receipt_of id name

  abbrev pub is_special : MarkerKind → Bool
  is_special special = true
  is_special _ = false

  abbrev pub is_regular : MarkerKind → Bool
  is_regular regular = true
  is_regular _ = false

  abbrev pub is_id : String → Bool
  is_id id = not (id =~ "") && not (contains_text id "/")

  -- `_provider_is_bouncing`
  unfoldable pub provider_is_bouncing : Directory → Value → Bool
  provider_is_bouncing directory shpool_id =
      if is_id (text shpool_id)
      then elim directory [
        | absent ↦ false
        | closed ↦ true
        | entries ms ↦ any (λ m. is_marker_of (text shpool_id) m.name && not (is_special m.kind)) ms
      ]
      else false

  -- `capture_bounce_receipts`: the names that are receipts.
  abbrev is_receipt : Marker → Bool
  is_receipt m = elim (bounce_session_id true m.name) [ none ↦ false | some _ ↦ is_regular m.kind ]

  unfoldable pub capture_bounce_receipts : Directory → List String
  capture_bounce_receipts directory = elim directory [
    | absent ↦ []
    | closed ↦ []
    | entries ms ↦ map (λ m. m.name) (keep_if is_receipt ms)
  ]

  -- The row shows the window of the session whose receipt this is.
  abbrev pub settles : String → Value → Bool
  settles name row =
      is_mapping row
      && is_true (get "app_server_window" row)
      && is_id (text (get "shpool_id_raw" row))
      && starts_with (text (get "shpool_id_raw" row) ++ separator) name
      && is_receipt_of (text (get "shpool_id_raw" row)) name

  abbrev pub is_settled : List Value → List String → Marker → Bool
  is_settled rows captured m =
      any (λ name. name =~ m.name) captured && is_regular m.kind && any (settles m.name) rows

  -- `clear_settled_bounce_markers`: what is left of the directory.
  unfoldable pub clear_settled_bounce_markers : List Value → List String → Directory → Directory
  clear_settled_bounce_markers rows captured directory = elim directory [
    | absent ↦ absent
    | closed ↦ closed
    | entries ms ↦ entries (keep_if (λ m. not (is_settled rows captured m)) ms)
  ]
