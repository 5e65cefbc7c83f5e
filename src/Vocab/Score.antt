-- ===== src/Vocab/Score.antt =====
-- When `best_match` of crates/daemon/src/vocab.rs gives a key a score: `acceptable` and its guards.
use whispy.Base.{
  ℕ, ◌+◌, ◌-◌, Bool, true, false, Option, none, some, ◌≡◌, ◌⊎◌, inl, inr, refl, sym, ◌∙◌, ap,
  length, max, list_eq_iff, Bool-cases, some_inj, if◌then◌else◌,
}
use whispy.Float.{F64, f64, float_le, float_lt, Arith}
use whispy.Text.{Text}
use whispy.Vocab.Tokens.{Key, soundex}
use whispy.Vocab.{same_code, acceptable, score_key}

-- Two words of one Soundex code.
abbrev pub SoundAlike : Text → Text → Type 0
SoundAlike a b = (code : Text) × (soundex a ≡ some code) × (soundex b ≡ some code)

abbrev alike : Text → Text → Bool
alike a b = same_code (soundex a) (soundex b)

same_code_iff :
    (a b : Option Text)
    → (same_code a b ≡ true → (code : Text) × (a ≡ some code) × (b ≡ some code))
      × ((code : Text) → a ≡ some code → b ≡ some code → same_code a b ≡ true)
same_code_iff none b = (λ h. cc, λ code e e'. cc)
same_code_iff (some a) none = (λ h. cc, λ code e e'. cc)
same_code_iff (some a) (some b) = (
  λ h. (a, refl, ap some (sym ((list_eq_iff a b).0 h))),
  λ code e e'. (list_eq_iff a b).1 (some_inj e ∙ sym (some_inj e')),
)

module _ (f : Arith) (levenshtein : Text → Text → ℕ) (threshold : F64) where
  -- The edits over the longer length.
  abbrev pub distance : Text → Text → F64
  distance candidate key =
      f.div (f.of_nat (levenshtein candidate key)) (f.of_nat (max (length candidate) (length key)))

  -- Lengths that differ by more than two, and by more than a quarter of the longer.
  abbrev pub far : Text → Text → Bool
  far candidate key =
      float_lt f64
        (f.maximum (f.mul (f.of_nat (max (length candidate) (length key))) 0x3fd0000000000000)
          0x4000000000000000)
        (f.of_nat ((length candidate - length key) + (length key - length candidate)))

  -- At most 0.45 of the key's length in edits.
  abbrev pub few_edits : Text → Text → Bool
  few_edits candidate key =
      float_le f64 (f.of_nat (levenshtein candidate key))
        (f.mul (f.of_nat (length key)) 0x3fdccccccccccccd)

  -- A distance under 0.125.
  abbrev pub small : Text → Text → Bool
  small candidate key = float_lt f64 (distance candidate key) 0x3fc0000000000000

  -- A candidate and a key with a score: their lengths are not far apart; words of one Soundex code
  -- differ in few edits, and have 0.3 of their distance for a score; other words have a small
  -- distance, their score; and the score is under the threshold.
  pub record Considered (candidate key : Text) (score : F64) : Type 0 where
    pub near_length : far candidate key ≡ false
    pub judged :
        (SoundAlike candidate key
          × (few_edits candidate key ≡ true)
          × (score ≡ f.mul (distance candidate key) 0x3fd3333333333333))
        ⊎ ((¬ SoundAlike candidate key)
            × (small candidate key ≡ true)
            × (score ≡ distance candidate key))
    pub under : float_lt f64 score threshold ≡ true

  abbrev under_threshold : F64 → Option F64
  under_threshold score = if float_lt f64 score threshold then some score else none

  score_far :
      (c : Text) (k : Key) → far c k.key ≡ true → score_key f levenshtein c k threshold ≡ none
  unfolding score_key
  score_far c k h = rw h refl

  score_alike :
      (c : Text) (k : Key)
      → far c k.key ≡ false
      → alike c k.key ≡ true
      → score_key f levenshtein c k threshold ≡ (
          if few_edits c k.key
          then under_threshold (f.mul (distance c k.key) 0x3fd3333333333333)
          else none)
  unfolding score_key acceptable
  score_alike c k h a =
      rw (h, a)
        (elim (Bool-cases (few_edits c k.key)) [ inl few ↦ rw few refl | inr many ↦ rw many refl ])

  score_other :
      (c : Text) (k : Key)
      → far c k.key ≡ false
      → alike c k.key ≡ false
      → score_key f levenshtein c k threshold
        ≡ (if small c k.key then under_threshold (distance c k.key) else none)
  unfolding score_key acceptable
  score_other c k h a =
      rw (h, a)
        (elim (Bool-cases (small c k.key)) [ inl few ↦ rw few refl | inr many ↦ rw many refl ])

  guarded :
      (b : Bool) (o : Option F64) (s : F64)
      → (if b then o else none) ≡ some s
      → (b ≡ true) × (o ≡ some s)
  guarded true o s h = (refl, h)
  guarded false o s h = absurd cc

  under_threshold-some :
      (x s : F64) → under_threshold x ≡ some s → (s ≡ x) × (float_lt f64 s threshold ≡ true)
  under_threshold-some x s h =
      let (u, e) = guarded (float_lt f64 x threshold) (some x) s h in
      (sym (some_inj e), ap (λ y. float_lt f64 y threshold) (sym (some_inj e)) ∙ u)

  pub score_key-Considered :
      (c : Text) (k : Key) (s : F64)
      → score_key f levenshtein c k threshold ≡ some s
      → Considered c k.key s
  score_key-Considered c k s h = elim (Bool-cases (far c k.key)) [
    | inl away ↦ absurd (let e = sym (score_far c k away) ∙ h in cc)
    | inr near ↦ elim (Bool-cases (alike c k.key)) [
      | inl a ↦
          let (few, rest) = guarded (few_edits c k.key) _ s (sym (score_alike c k near a) ∙ h) in
          let (e, u) = under_threshold-some _ s rest in
          record {
            near_length = near;
            judged = inl ((same_code_iff (soundex c) (soundex k.key)).0 a, few, e);
            under = u;
          }
      | inr o ↦
          let (few, rest) = guarded (small c k.key) _ s (sym (score_other c k near o) ∙ h) in
          let (e, u) = under_threshold-some _ s rest in
          record {
            near_length = near;
            judged = inr (
              λ (code, e1, e2).
                  let t = (same_code_iff (soundex c) (soundex k.key)).1 code e1 e2 in cc,
              few,
              e,
            );
            under = u;
          }
    ]
  ]

  pub Considered-score_key :
      (c : Text) (k : Key) (s : F64)
      → Considered c k.key s
      → score_key f levenshtein c k threshold ≡ some s
  Considered-score_key c k s v = elim v.judged [
    | inl (alike_words, few, e) ↦
        let (code, e1, e2) = alike_words in
        score_alike c k v.near_length ((same_code_iff (soundex c) (soundex k.key)).1 code e1 e2)
        ∙ rw few (rw (← e) (rw v.under refl))
    | inr (other, few, e) ↦ elim (Bool-cases (alike c k.key)) [
      | inl a ↦ absurd (other ((same_code_iff (soundex c) (soundex k.key)).0 a))
      | inr o ↦ score_other c k v.near_length o ∙ rw few (rw (← e) (rw v.under refl))
    ]
  ]
