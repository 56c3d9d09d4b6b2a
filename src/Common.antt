-- ===== src/Common.antt =====
-- lib/sessionkit_inventory/common.py: exact conversation UUIDs and the providers.
pub mod Text
pub mod Exact
use Prim.Native.Char.{Char, code}
use session_kit.Base.{
  ℕ, zero, suc, ◌-◌, not, ◌≡◌, refl, String, Bool, true, false, ◌&&◌, ◌||◌, List, [], ◌∷◌, Option,
  none, some, arith, leb, ◌==◌, ◌=~◌, if◌then◌else◌,
}
use session_kit.Json.{Value, str}

-- `[0-9a-f]` under re.IGNORECASE.
abbrev pub is_hex : Char → Bool
is_hex c =
    leb b'0' (code c) && leb (code c) b'9'
    || leb b'a' (code c) && leb (code c) b'f'
    || leb b'A' (code c) && leb (code c) b'F'

-- `str.lower` of a character that `is_hex` or the dash has matched.
abbrev pub lower_hex : Char → Char
lower_hex c =
    if code c == b'A'
    then "a"
    else if code c == b'B'
    then "b"
    else if code c == b'C'
    then "c"
    else if code c == b'D'
    then "d"
    else if code c == b'E'
    then "e"
    else if code c == b'F'
    then "f"
    else c

unfoldable pub lower : String → String
lower String.[] = ""
lower (String.◌∷◌ c s) = String.◌∷◌ (lower_hex c) (lower s)

-- `n` more digits of this group, then the groups that follow, each behind a dash.
unfoldable pub matches_groups : ℕ → List ℕ → String → Bool
matches_groups zero [] String.[] = true
matches_groups zero [] (String.◌∷◌ c s) = false
matches_groups zero (g ∷ gs) String.[] = false
matches_groups zero (g ∷ gs) (String.◌∷◌ c s) = code c == b'-' && matches_groups g gs s
matches_groups (suc n) gs String.[] = false
matches_groups (suc n) gs (String.◌∷◌ c s) = is_hex c && matches_groups n gs s

-- `UUID_RE.fullmatch`
unfoldable pub matches_uuid : String → Bool
unfolding matches_groups
matches_uuid = matches_groups 8 (4 ∷ 4 ∷ 4 ∷ 12 ∷ [])

unfoldable pub valid_uuid : Value → Option String
unfolding matches_uuid lower
valid_uuid (str s) = if matches_uuid s then some (lower s) else none
valid_uuid _ = none

-- `value in PROVIDERS`: the providers that hold conversations.
unfoldable pub is_provider : Value → Option String
is_provider (str s) = if s =~ "claude" then some s else if s =~ "codex" then some s else none
is_provider _ = none

-- A text of `lo` to `hi` characters of one class.
unfoldable pub only : (Char → Bool) → ℕ → ℕ → String → Bool
only p lo hi String.[] = lo == 0
only p lo zero (String.◌∷◌ c s) = false
only p lo (suc hi) (String.◌∷◌ c s) = p c && only p (lo - 1) hi s

abbrev is_lower_hex : Char → Bool
is_lower_hex c = is_hex c && not (leb b'A' (code c) && leb (code c) b'F')

-- `re.fullmatch(r"[0-9a-f]{64}", value)`
unfoldable pub is_digest : Value → Bool
is_digest (str s) = only is_lower_hex 64 64 s
is_digest _ = false

uuid_lowered :
    valid_uuid (str "0C5A8F12-1B2c-4d5e-8f90-ABCDEFabcdef")
    ≡ some "0c5a8f12-1b2c-4d5e-8f90-abcdefabcdef"
unfolding valid_uuid
uuid_lowered = refl

uuid_refused : valid_uuid (str "0c5a8f12-1b2c-4d5e-8f90-abcdefabcde") ≡ none
unfolding valid_uuid
uuid_refused = refl
