-- ===== src/Hops/Pending.antt =====
-- account_guard.py, `pending_notices`: the notices that the operator is owed.
use Prim.Native.Char.{code}
use Prim.Native.Nat.{Ordering}
use Prim.Native.String.{◌++◌}
use text.Mathlib.TextLemmas.{nil-append, cons-append}
use session_kit.Base.{
  ℕ, ◌≡◌, ◌≤◌, refl, sym, ap, subst, inl, inr, String, Bool, true, false, ◌&&◌, ◌||◌, not, List, [],
  ◌∷◌, some, arith, ltb, Any, Any-append_left, Any-append_right, Any-keep_if, some-injective, =~→eq,
  Bool-cases, Option-cases, ◌==◌, ◌=~◌, if◌then◌else◌, string_dec, map, keep_if, compare_text,
  ◌++◌ as ◌⊕◌, ◌∙◌,
}
use session_kit.Base.Assoc.{lookup}
use session_kit.Base.Sort.{sort_by, sort_by-IsSorted, IsSorted}
use session_kit.Json.{str}
use session_kit.Common.{is_provider, valid_uuid}
use session_kit.Common.Text.{Unicode}
use session_kit.Hops.Ledger.{Notice, Thread, Ledger, ok, thread_key}
use session_kit.Hops.Operations.{Action, load, returns, ◌>>=◌}

pub record Owed : Type 0 where
  pub provider : String
  pub uuid : String
  pub token : String
  pub sentence : String
  pub at_unix : ℕ

-- `key.partition(":")`, without the colon.
unfoldable pub split_key : String → String × String
split_key String.[] = ("", "")
split_key (String.◌∷◌ c s) =
    let rest = split_key s in if code c == b':' then ("", s) else (String.◌∷◌ c rest.0, rest.1)

abbrev pub owed : String → Notice → Owed
owed key n = record {
  provider = (split_key key).0;
  uuid = (split_key key).1;
  token = n.token;
  sentence = n.sentence;
  at_unix = n.at_unix;
}

unfoldable pub owed_by : String → List Notice → List Owed
owed_by key ns = map (owed key) (keep_if (λ n. not n.delivered) ns)

unfoldable pub owed_in : Ledger → List Owed
owed_in [] = []
owed_in (e ∷ l) = owed_by e.0 e.1.notices ⊕ owed_in l

abbrev pub is_less : Ordering → Bool
is_less Ordering.lt = true
is_less _ = false

-- `(at_unix, token)` of one before that of the other.
abbrev pub is_earlier : Owed → Owed → Bool
is_earlier a b =
    ltb a.at_unix b.at_unix || ((a.at_unix == b.at_unix) && is_less (compare_text a.token b.token))

module _ (u : Unicode) where
  unfoldable pub pending_notices : Action (List Owed)
  pending_notices = do ledger ← load u; returns (sort_by is_earlier (owed_in ledger))

-- No colon stands in the text.
unfoldable colon_free : String → Bool
colon_free String.[] = true
colon_free (String.◌∷◌ c s) = not (code c == b':') && colon_free s

colon-append : (t : String) → ":" ++ t ≡ String.◌∷◌ ":" t
colon-append t = cons-append ":" "" t ∙ ap (λ s. String.◌∷◌ ":" s) (nil-append t)

split_key-key : (p e : String) → colon_free p ≡ true → split_key (p ++ (":" ++ e)) ≡ (p, e)
unfolding split_key colon_free
split_key-key String.[] e h = rw (nil-append (":" ++ e), colon-append e) refl
split_key-key (String.◌∷◌ c p) e h =
    let rest = split_key-key p e (ground arith) in
    let other : (code c == b':') ≡ false = ground arith in
    rw (cons-append c p (":" ++ e), other, rest) refl

provider_colon_free :
    (s p : String) → is_provider (str s) ≡ some p → (p ≡ s) × (colon_free s ≡ true)
unfolding is_provider colon_free
provider_colon_free s p h = elim (string_dec s "claude") [
  | yes e ↦ (ground (arith, e), subst (λ x. colon_free x ≡ true) (sym e) refl)
  | no d ↦ elim (string_dec s "codex") [
    | yes e ↦ (ground (arith, e), subst (λ x. colon_free x ≡ true) (sym e) refl)
    | no e ↦ absurd (ground arith)
  ]
]

-- A conversation's key tells its provider and its UUID.
pub split_key-thread_key :
    (provider uuid exact key : String)
    → thread_key provider uuid ≡ ok key
    → valid_uuid (str uuid) ≡ some exact
    → split_key key ≡ (provider, exact)
unfolding thread_key
split_key-thread_key provider uuid exact key h v =
    elim (Option-cases (is_provider (str provider))) [
      | inl e ↦ absurd (ground arith)
      | inr (p, e) ↦
          let (same, free) = provider_colon_free provider p e in
          let key_is : p ++ (":" ++ exact) ≡ key = ground arith in
          subst (λ k. split_key k ≡ (provider, exact)) key_is
            (rw same (split_key-key provider exact free))
    ]

Any-owed_by :
    (key : String) (n : Notice) (ns : List Notice)
    → Any (λ m. m ≡ n) ns
    → n.delivered ≡ false
    → Any (λ o. o ≡ owed key n) (owed_by key ns)
unfolding owed_by
Any-owed_by key n ns a h =
    each (keep_if (λ m. not m.delivered) ns)
      (Any-keep_if (λ m. not m.delivered) n ns (ground arith) a)
  where
    each : (ms : List Notice) → Any (λ m. m ≡ n) ms → Any (λ o. o ≡ owed key n) (map (owed key) ms)
    each [] b = absurd b
    each (m ∷ ms) (inl e) = inl (ap (owed key) e)
    each (m ∷ ms) (inr b) = inr (each ms b)

pub Any-owed_in :
    (key : String) (n : Notice) (l : Ledger) (t : Thread)
    → lookup key l ≡ some t
    → Any (λ m. m ≡ n) t.notices
    → n.delivered ≡ false
    → Any (λ o. o ≡ owed key n) (owed_in l)
unfolding owed_in
Any-owed_in key n [] t e a h = cc
Any-owed_in key n ((j, t') ∷ l) t e a h = elim (Bool-cases (j =~ key)) [
  | inr miss ↦
      Any-append_right (λ o. o ≡ owed key n) (owed_by j t'.notices) (owed_in l)
        (Any-owed_in key n l t (rw miss at e) a h)
  | inl hit ↦
      let same : t' ≡ t = some-injective (rw hit at e) in
      Any-append_left (λ o. o ≡ owed key n) (owed_by j t'.notices) (owed_in l)
        (subst (λ k. Any (λ o. o ≡ owed key n) (owed_by k t'.notices)) (sym (=~→eq j key hit))
          (Any-owed_by key n t'.notices (subst (λ x. Any (λ m. m ≡ n) x.notices) (sym same) a) h))
]

abbrev pub OldestFirst : List Owed → Type 0
OldestFirst os = IsSorted (λ a b. a.at_unix ≤ b.at_unix) os

is_earlier-le : (a b : Owed) → is_earlier a b ≡ true → a.at_unix ≤ b.at_unix
is_earlier-le a b h = ground arith

not_earlier-le : (a b : Owed) → is_earlier a b ≡ false → b.at_unix ≤ a.at_unix
not_earlier-le a b h = ground arith

pub sorted-OldestFirst : (os : List Owed) → OldestFirst (sort_by is_earlier os)
sorted-OldestFirst os =
    sort_by-IsSorted (λ a b. a.at_unix ≤ b.at_unix) is_earlier is_earlier-le not_earlier-le
      (λ a b c h k. omega (arith, h, k)) os
