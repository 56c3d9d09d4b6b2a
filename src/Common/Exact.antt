-- ===== src/Common/Exact.antt =====
-- lib/sessionkit_inventory/common.py: `valid_uuid` takes what it returned as it is.
use Prim.Native.Char.{Char, code}
use session_kit.Base.{
  both_hold, first_holds, second_holds, none_no_some, some-injective, ℕ, zero, suc, ◌≡◌, refl, sym,
  subst, ap, String, true, false, ◌⊎◌, inl, inr, List, [], ◌∷◌, none, some, Bool-cases, ◌==◌, arith,
  if◌then◌else◌,
}
use session_kit.Json.{Value, str}
use session_kit.Common.{is_hex, lower_hex, lower, matches_groups, matches_uuid, valid_uuid}

-- A digit that has a lower case, and that lower case.
Lowered : Char → Type 0
Lowered c =
    (is_hex (lower_hex c) ≡ true)
    × ((lower_hex (lower_hex c) ≡ lower_hex c) × ((code c == b'-') ≡ false))

not_dash :
    (n : ℕ) (c : Char) → (code c == n) ≡ true → (n == b'-') ≡ false → (code c == b'-') ≡ false
not_dash n c h k = ground arith

lower_hex-cases : (c : Char) → (lower_hex c ≡ c) ⊎ Lowered c
unfolding Lowered
lower_hex-cases c = elim (Bool-cases (code c == b'A')) [
  | inl e ↦ inr (rw (e, lower_hex) (refl, (refl, not_dash b'A' c e refl)))
  | inr na ↦ elim (Bool-cases (code c == b'B')) [
    | inl e ↦ inr (rw (na, e, lower_hex) (refl, (refl, not_dash b'B' c e refl)))
    | inr nb ↦ elim (Bool-cases (code c == b'C')) [
      | inl e ↦ inr (rw (na, nb, e, lower_hex) (refl, (refl, not_dash b'C' c e refl)))
      | inr nc ↦ elim (Bool-cases (code c == b'D')) [
        | inl e ↦ inr (rw (na, nb, nc, e, lower_hex) (refl, (refl, not_dash b'D' c e refl)))
        | inr nd ↦ elim (Bool-cases (code c == b'E')) [
          | inl e ↦ inr (rw (na, nb, nc, nd, e, lower_hex) (refl, (refl, not_dash b'E' c e refl)))
          | inr ne ↦ elim (Bool-cases (code c == b'F')) [
            | inl e ↦
                inr (rw (na, nb, nc, nd, ne, e, lower_hex) (refl, (refl, not_dash b'F' c e refl)))
            | inr nf ↦ inl (rw (na, nb, nc, nd, ne, nf, lower_hex) refl)
          ]
        ]
      ]
    ]
  ]
]

lower_hex-hex : (c : Char) → is_hex c ≡ true → is_hex (lower_hex c) ≡ true
unfolding Lowered
lower_hex-hex c h = elim (lower_hex-cases c) [
  | inl e ↦ subst (λ d. is_hex d ≡ true) (sym e) h
  | inr l ↦ l.0
]

lower_hex-dash : (c : Char) → (code c == b'-') ≡ true → (code (lower_hex c) == b'-') ≡ true
unfolding Lowered
lower_hex-dash c h = elim (lower_hex-cases c) [
  | inl e ↦ subst (λ d. (code d == b'-') ≡ true) (sym e) h
  | inr (i, (j, k)) ↦ absurd cc
]

lower_hex_twice : (c : Char) → lower_hex (lower_hex c) ≡ lower_hex c
unfolding Lowered
lower_hex_twice c = elim (lower_hex-cases c) [ inl e ↦ ap lower_hex e | inr l ↦ l.1.0 ]

matches_groups-lower :
    (n : ℕ) (gs : List ℕ) (s : String)
    → matches_groups n gs s ≡ true
    → matches_groups n gs (lower s) ≡ true
unfolding matches_groups lower
matches_groups-lower zero [] String.[] h = refl
matches_groups-lower zero [] (String.◌∷◌ c s) h = cc
matches_groups-lower zero (g ∷ gs) String.[] h = cc
matches_groups-lower zero (g ∷ gs) (String.◌∷◌ c s) h =
    both_hold (lower_hex-dash c (first_holds _ h))
      (matches_groups-lower g gs s (second_holds (code c == b'-') h))
matches_groups-lower (suc n) gs String.[] h = cc
matches_groups-lower (suc n) gs (String.◌∷◌ c s) h =
    both_hold (lower_hex-hex c (first_holds _ h))
      (matches_groups-lower n gs s (second_holds (is_hex c) h))

lower_twice : (s : String) → lower (lower s) ≡ lower s
unfolding lower
lower_twice String.[] = refl
lower_twice (String.◌∷◌ c s) = rw (lower_hex_twice c, lower_twice s) refl

-- A UUID that was returned is exact.
pub valid_uuid_again :
    (v : Value) (k : String) → valid_uuid v ≡ some k → valid_uuid (str k) ≡ some k
unfolding valid_uuid matches_uuid
valid_uuid_again (str s) k h = elim (Bool-cases (matches_groups 8 (4 ∷ 4 ∷ 4 ∷ 12 ∷ []) s)) [
  | inr e ↦ absurd (none_no_some (rw e at h))
  | inl e ↦
      let same : lower s ≡ k = some-injective (rw e at h) in
      subst
        (λ t. (if matches_groups 8 (4 ∷ 4 ∷ 4 ∷ 12 ∷ []) t then some (lower t) else none) ≡ some t)
        same (rw (matches_groups-lower 8 (4 ∷ 4 ∷ 4 ∷ 12 ∷ []) s e, lower_twice s) refl)
]
valid_uuid_again Value.null k h = cc
valid_uuid_again (Value.bool b) k h = cc
valid_uuid_again (Value.int i) k h = cc
valid_uuid_again (Value.float f) k h = cc
valid_uuid_again (Value.list xs) k h = cc
valid_uuid_again (Value.object fs) k h = cc
