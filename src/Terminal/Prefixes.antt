-- ===== src/Terminal/Prefixes.antt =====
-- terminal.py and state_io.py: the prefixes of the two kinds of registry keys.
use Prim.Native.Char.{code}
use Prim.Native.String.{◌++◌}
use text.Mathlib.TextEquality.{starts_with_iff}
use text.Mathlib.TextLemmas.{cons-append}
use text.Mathlib.TextPositions.{starts_with-append}
use session_kit.Base.{ℕ, ◌≡◌, inl, inr, ◌∙◌, sym, ap, String, true, some, arith, Option-cases}
use session_kit.Json.{Value, str, list, cons, nil, get, text_of}
use session_kit.Common.{is_provider, valid_uuid}
use session_kit.Terminal.Keys.{
  is_ai, is_generation, terminal_generation_key, terminal_ai_key, ai_key_of, keyed, hinted_key,
}

-- The code of the first character.
first : String → ℕ
first String.[] = 0
first (String.◌∷◌ c s) = code c

first-ai : (s : String) → first ("ai:" ++ s) ≡ b'a'
unfolding first
first-ai s = ap first (cons-append "a" "i:" s)

first-generation : (s : String) → first ("generation:" ++ s) ≡ b'g'
unfolding first
first-generation s = ap first (cons-append "g" "eneration:" s)

clash : (s t : String) → "ai:" ++ s ≡ "generation:" ++ t → ⊥
clash s t e = absurd (omega (arith, first-ai s, first-generation t, ap first e))

pub ai_not_generation : (k : String) → is_ai k ≡ true → is_generation k ≡ true → ⊥
ai_not_generation k a g =
    let (s, p) = (starts_with_iff k "ai:").0 a in
    let (t, q) = (starts_with_iff k "generation:").0 g in clash s t (p ∙ sym q)

keyed-is_generation :
    (digest : Value → String) (boot_id raw_id : String) (a b c : Value) (g : String)
    → keyed digest boot_id raw_id a b c ≡ some g
    → is_generation g ≡ true
keyed-is_generation digest boot_id raw_id a b c g h = ground (
  arith,
  starts_with-append "generation:"
      (digest (list (cons (str boot_id) (cons (str raw_id) (cons a (cons b (cons c nil))))))),
)

pub is_generation-terminal_generation_key :
    (digest : Value → String) (boot_id : String) (item : Value) (g : String)
    → terminal_generation_key digest boot_id item ≡ some g
    → is_generation g ≡ true
unfolding terminal_generation_key
is_generation-terminal_generation_key digest boot_id item g h =
    elim (Option-cases (text_of (get "shpool_id_raw" item))) [
      | inl e ↦ absurd (ground arith)
      | inr (raw, e) ↦
          keyed-is_generation digest boot_id raw (get "started_at_unix_ms" item)
            (get "pid" (get "shpool_shell" item))
            (get "process_start_ticks" (get "shpool_shell" item)) g (ground arith)
    ]

is_ai-ai_key_of : (p u : Value) (k : String) → ai_key_of p u ≡ some k → is_ai k ≡ true
unfolding ai_key_of
is_ai-ai_key_of p u k h = elim (Option-cases (is_provider p)) [
  | inl e ↦ absurd (ground arith)
  | inr (a, e) ↦ elim (Option-cases (valid_uuid u)) [
    | inl f ↦ absurd (ground arith)
    | inr (b, f) ↦ ground (arith, starts_with-append "ai:" (a ++ (":" ++ b)))
  ]
]

hinted_key-is_ai : (hint : Value) (k : String) → hinted_key hint ≡ some k → is_ai k ≡ true
hinted_key-is_ai hint k h =
    ground (arith, is_ai-ai_key_of (get "provider" hint) (get "uuid" hint) k)

pub is_ai-terminal_ai_key :
    (item : Value) (k : String) → terminal_ai_key item ≡ some k → is_ai k ≡ true
unfolding terminal_ai_key
is_ai-terminal_ai_key item k h =
    elim (Option-cases (ai_key_of (get "provider" item) (get "uuid" (get "identity" item)))) [
      | inl e ↦ hinted_key-is_ai (get "_terminal_identity_hint" item) k (ground arith)
      | inr (a, e) ↦ ground (
        arith,
        is_ai-ai_key_of (get "provider" item) (get "uuid" (get "identity" item)) a,
        hinted_key-is_ai (get "_terminal_identity_hint" item) k,
      )
    ]
