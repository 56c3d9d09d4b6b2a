-- ===== src/Origins/Calls.antt =====
-- lib/sessionkit_inventory/origins.py: what any calls make of the stored stamps.
use session_kit.Base.{
  ℕ, ltb, ◌-◌, ◌≤◌, ◌≡◌, false, refl, sym, ap, subst, inl, inr, String, Bool, true, ◌||◌, List, [],
  ◌∷◌, none, some, length, keep_if, All, All-keep_if, Bool-cases, ◌==◌, if◌then◌else◌, arith,
}
use session_kit.Base.Assoc.{insert, All-insert}
use session_kit.Json.{Value, str}
use session_kit.Common.{is_digest}
use session_kit.Origins.Store.{
  Stamping, is_proper, stamp_named, record_origin, is_empty, Listing, keeps, removed, prune_origins,
  written,
}
use session_kit.Origins.Stamps.{
  Stamp, Stamps, File, max_origin_bytes, read_origins, document_of, text,
}
use session_kit.Origins.Sound.{Sound, AllSound, origin-text, validated_pair-document_of}

pub data Call : Type 0 where
  records : Stamping → Call
  prunes : Listing → Call

module _ (size : Value → ℕ) where
  -- A call that raises leaves what is stored.
  unfoldable pub after : Call → File → File
  after (records c) file = elim (record_origin c file) [ none ↦ file | some v ↦ written size v ]
  after (prunes l) file = elim (prune_origins size l file) [ none ↦ file | some r ↦ r.1 ]

  unfoldable pub after_all : List Call → File → File
  after_all [] file = file
  after_all (c ∷ cs) file = after_all cs (after c file)

-- The same on a dict of stamps: no files, no documents.
abbrev pub changed : Call → Stamps → Stamps
changed (records c) d = if is_proper c then insert (text c.shpool_id) (stamp_named c) d else d
changed (prunes l) d = if is_empty l.active || is_empty l.captured then d else keep_if (keeps l) d

abbrev pub changed_all : List Call → Stamps → Stamps
changed_all [] d = d
changed_all (c ∷ cs) d = changed_all cs (changed c d)

-- The fresh token of a call is one of 64 hexadecimal digits.
abbrev pub IsFresh : Call → Type 0
IsFresh (records c) = is_digest (str c.generation) ≡ true
IsFresh (prunes l) = Unit

-- The file is understood as these stamps.
unfoldable pub Reads : File → Stamps → Type 0
Reads file d = (read_origins file ≡ some (d, true)) × AllSound d

length-keep_if : (p : String × Stamp → Bool) (d : Stamps) → length (keep_if p d) ≤ length d
length-keep_if p [] = omega arith
length-keep_if p (e ∷ d) = ground (arith, length-keep_if p d)

same_difference :
    (p : String × Stamp → Bool) (e : String × Stamp) (d : Stamps)
    → p e ≡ true
    → ((length (e ∷ d) - length (keep_if p (e ∷ d))) == 0) ≡ true
    → ((length d - length (keep_if p d)) == 0) ≡ true
same_difference p e d k h = ground arith

-- Nothing was removed where the lengths say so.
keep_if_same :
    (p : String × Stamp → Bool) (d : Stamps)
    → ((length d - length (keep_if p d)) == 0) ≡ true
    → keep_if p d ≡ d
keep_if_same p [] h = refl
keep_if_same p (e ∷ d) h = elim (Bool-cases (p e)) [
  | inl k ↦ rw k (ap (λ l. e ∷ l) (keep_if_same p d (same_difference p e d k h)))
  | inr k ↦ let le = length-keep_if p d in absurd (ground arith)
]

stamp_named-Sound :
    (c : Stamping)
    → is_proper c ≡ true
    → is_digest (str c.generation) ≡ true
    → Sound (stamp_named c)
unfolding is_proper
stamp_named-Sound c h g =
    (origin-text c.origin (ground arith), ground arith, (ground arith, ground arith))

module _ (size : Value → ℕ) where
  -- The document of the stamps is not too long to be read.
  abbrev pub Fits : Stamps → Type 0
  Fits d = size (document_of d) ≤ max_origin_bytes

  -- So is what each of the calls leaves.
  abbrev pub AllFit : List Call → Stamps → Type 0
  AllFit [] d = Unit
  AllFit (c ∷ cs) d = Fits (changed c d) × AllFit cs (changed c d)

  written-Reads : (d : Stamps) → Fits d → AllSound d → Reads (written size (document_of d)) d
  unfolding Reads read_origins
  written-Reads d fits h =
      let short : ltb max_origin_bytes (size (document_of d)) ≡ false = ground arith in
      (rw short (validated_pair-document_of d h), h)

  after-records :
      (c : Stamping) (file : File) (d : Stamps)
      → read_origins file ≡ some (d, true)
      → after size (records c) file ≡ (
          if is_proper c
          then written size (document_of (insert (text c.shpool_id) (stamp_named c) d))
          else file)
  unfolding after record_origin
  after-records c file d e = elim (Bool-cases (is_proper c)) [
    | inr k ↦ rw (k, after, record_origin) refl
    | inl k ↦ rw (k, e, after, record_origin) refl
  ]

  records-Reads :
      (c : Stamping) (file : File) (d : Stamps)
      → is_digest (str c.generation) ≡ true
      → Fits (changed (records c) d)
      → Reads file d
      → Reads (after size (records c) file) (changed (records c) d)
  unfolding Reads
  records-Reads c file d g fits r =
      subst (λ f. Reads f (changed (records c) d)) (sym (after-records c file d r.0))
        (elim (Bool-cases (is_proper c)) [
          | inr k ↦ rw k r
          | inl k ↦
              let sound =
                All-insert (λ e. Sound e.1) (text c.shpool_id) (stamp_named c) d r.1
                  (stamp_named-Sound c k g) in
              rw k
                (written-Reads (insert (text c.shpool_id) (stamp_named c) d) (rw k at fits) sound)
        ])

  after-prunes :
      (l : Listing) (file : File) (d : Stamps)
      → read_origins file ≡ some (d, true)
      → after size (prunes l) file ≡ (
          if is_empty l.active || is_empty l.captured
          then file
          else if removed l d == 0
          then file
          else written size (document_of (keep_if (keeps l) d)))
  unfolding after prune_origins
  after-prunes l file d e = elim (Bool-cases (is_empty l.active || is_empty l.captured)) [
    | inl a ↦ rw (a, after, prune_origins) refl
    | inr a ↦ elim (Bool-cases (removed l d == 0)) [
      | inl k ↦ rw (a, e, k, after, prune_origins) refl
      | inr k ↦ rw (a, e, k, after, prune_origins) refl
    ]
  ]

  prunes-Reads :
      (l : Listing) (file : File) (d : Stamps)
      → Fits (changed (prunes l) d)
      → Reads file d
      → Reads (after size (prunes l) file) (changed (prunes l) d)
  unfolding Reads
  prunes-Reads l file d fits r =
      subst (λ f. Reads f (changed (prunes l) d)) (sym (after-prunes l file d r.0))
        (elim (Bool-cases (is_empty l.active || is_empty l.captured)) [
          | inl k ↦ rw k r
          | inr k ↦ elim (Bool-cases (removed l d == 0)) [
            | inl z ↦ rw (k, z, keep_if_same (keeps l) d z) r
            | inr z ↦
                rw (k, z)
                  (written-Reads (keep_if (keeps l) d) (rw k at fits)
                    (All-keep_if (λ e. Sound e.1) (keeps l) d r.1))
          ]
        ])

  -- Where the stored file is understood as some stamps, it is understood after any calls, whose
  -- tokens are fresh and each of which leaves stamps that fit in the file, as what the calls make of
  -- the stamps alone.
  pub after_all-Reads :
      (cs : List Call) (file : File) (d : Stamps)
      → All IsFresh cs
      → AllFit cs d
      → Reads file d
      → Reads (after_all size cs file) (changed_all cs d)
  unfolding after_all
  after_all-Reads [] file d f fit r = r
  after_all-Reads (records c ∷ cs) file d f fit r =
      after_all-Reads cs _ _ f.1 fit.1 (records-Reads c file d f.0 fit.0 r)
  after_all-Reads (prunes l ∷ cs) file d f fit r =
      after_all-Reads cs _ _ f.1 fit.1 (prunes-Reads l file d fit.0 r)
