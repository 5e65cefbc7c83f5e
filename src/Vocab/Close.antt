-- ===== src/Vocab/Close.antt =====
-- Which words `best_match` of crates/daemon/src/vocab.rs may pick, and when it picks none.
use whispy.Base.{
  ℕ, ◌≤◌, Bool, true, false, ◌||◌, not, Option, none, some, List, [], ◌∷◌, ◌≡◌, inl, inr, refl, sym,
  subst, ◌∙◌, arith, length, get_elem?, ltb, Bool-cases,
}
use whispy.Float.{F64, f64, float_lt, Arith}
use whispy.Text.{Text}
use whispy.Vocab.Tokens.{Key, is_ascii_key}
use whispy.Vocab.{is_better, better, score_key, best_of, best_match, max_key_chars}
use whispy.Vocab.Least.{float_lt_irrefl, not_under_less}
use whispy.Vocab.Score.{Considered, score_key-Considered, Considered-score_key}

-- The key is one of the list.
pub data Has (k : Key) : List Key → Type 0 where
  here : {ks : List Key} → Has k (k ∷ ks)
  there : {j : Key} {ks : List Key} → Has k ks → Has k (j ∷ ks)

module _ (f : Arith) (levenshtein : Text → Text → ℕ) (words : List Text) (threshold : F64) where
  -- The candidate is 1 to 50 ASCII letters and digits, the word is a custom word, and one of its
  -- keys is considered against the candidate.
  pub record Close (keys : List Key) (candidate word : Text) (score : F64) : Type 0 where
    pub is_key : is_ascii_key candidate ≡ true
    pub short : length candidate ≤ 50
    pub key : Key
    pub listed : Has key keys
    pub named : get_elem? words key.word ≡ some word
    pub considered : Considered f levenshtein threshold candidate key.key score

  -- A listed key of a custom word that scores.
  record Scored (keys : List Key) (candidate word : Text) (score : F64) : Type 0 where
    pub key : Key
    pub listed : Has key keys
    pub named : get_elem? words key.word ≡ some word
    pub scores : score_key f levenshtein candidate key threshold ≡ some score

  abbrev BestScored : List Key → Text → Option (Text × F64) → Type 0
  BestScored keys candidate none = Unit
  BestScored keys candidate (some (word, score)) = Scored keys candidate word score

  better-Scored :
      (keys : List Key) (candidate : Text) (k : Key) (best : Option (Text × F64))
      → Has k keys
      → BestScored keys candidate best
      → BestScored keys candidate (
          better f levenshtein best
            (get_elem? words k.word)
            (score_key f levenshtein candidate k threshold))
  better-Scored keys candidate k best has v =
      better_step (get_elem? words k.word) (score_key f levenshtein candidate k threshold) refl refl
    where
      better_step :
          (o : Option Text) (s : Option F64)
          → get_elem? words k.word ≡ o
          → score_key f levenshtein candidate k threshold ≡ s
          → BestScored keys candidate (better f levenshtein best o s)
      better_step none s ew es = v
      better_step (some word) none ew es = v
      better_step (some word) (some score) ew es =
          elim (Bool-cases (is_better f levenshtein score best)) [
            | inl first ↦ rw first (record { key = k; listed = has; named = ew; scores = es })
            | inr later ↦ rw later v
          ]

  best_of-Scored :
      (keys : List Key) (candidate : Text) (ks : List Key) (best : Option (Text × F64))
      → ((k : Key) → Has k ks → Has k keys)
      → BestScored keys candidate best
      → BestScored keys candidate (best_of f levenshtein words candidate threshold ks best)
  unfolding best_of
  best_of-Scored keys candidate [] best sub v = v
  best_of-Scored keys candidate (k ∷ ks) best sub v =
      best_of-Scored keys candidate ks _ (λ j h. sub j (there h))
        (better-Scored keys candidate k best (sub k here) v)

  -- There is a best match, and the score is not under its score.
  abbrev pub Under : Option (Text × F64) → F64 → Type 0
  Under none x = ⊥
  Under (some (word, score)) x = float_lt f64 x score ≡ false

  -- A best match stays one, and a key that scores makes one.
  better_keeps :
      (best : Option (Text × F64)) (o : Option Text) (s : Option F64) (x : F64)
      → Under best x
      → Under (better f levenshtein best o s) x
  better_keeps best none s x v = v
  better_keeps best (some w) none x v = v
  better_keeps none (some w) (some y) x v = absurd v
  better_keeps (some (b, z)) (some w) (some y) x v = elim (Bool-cases (float_lt f64 y z)) [
    | inl less ↦ rw less (not_under_less x y z less v)
    | inr other ↦ rw other v
  ]

  better_covers :
      (best : Option (Text × F64)) (w : Text) (x : F64)
      → Under (better f levenshtein best (some w) (some x)) x
  better_covers none w x = float_lt_irrefl x
  better_covers (some (b, z)) w x = elim (Bool-cases (float_lt f64 x z)) [
    | inl less ↦ rw less (float_lt_irrefl x)
    | inr other ↦ rw other other
  ]

  best_of_keeps :
      (candidate : Text) (ks : List Key) (best : Option (Text × F64)) (x : F64)
      → Under best x
      → Under (best_of f levenshtein words candidate threshold ks best) x
  unfolding best_of
  best_of_keeps candidate [] best x v = v
  best_of_keeps candidate (k ∷ ks) best x v =
      best_of_keeps candidate ks _ x (better_keeps best _ _ x v)

  best_of_covers :
      {k : Key} {ks : List Key} (candidate word : Text) (x : F64) (best : Option (Text × F64))
      → Has k ks
      → get_elem? words k.word ≡ some word
      → score_key f levenshtein candidate k threshold ≡ some x
      → Under (best_of f levenshtein words candidate threshold ks best) x
  unfolding best_of
  best_of_covers {ks = []} candidate word x best has named scores = elim has [ ]
  best_of_covers {ks = k ∷ ks} candidate word x best here named scores =
      best_of_keeps candidate ks _ x (rw (named, scores) (better_covers best word x))
  best_of_covers {ks = j ∷ ks} candidate word x best (there has) named scores =
      best_of_covers candidate word x _ has named scores

  abbrev barred : Text → Bool
  barred candidate = not (is_ascii_key candidate) || ltb max_key_chars (length candidate)

  best_match_barred :
      (keys : List Key) (candidate : Text)
      → barred candidate ≡ true
      → best_match f levenshtein candidate words keys threshold ≡ none
  unfolding best_match
  best_match_barred keys candidate bad = rw bad refl

  best_match_fine :
      (keys : List Key) (candidate : Text)
      → barred candidate ≡ false
      → best_match f levenshtein candidate words keys threshold
        ≡ best_of f levenshtein words candidate threshold keys none
  unfolding best_match
  best_match_fine keys candidate fine = rw fine refl

  -- The match is close.
  pub best_match-Close :
      (keys : List Key) (candidate word : Text) (score : F64)
      → best_match f levenshtein candidate words keys threshold ≡ some (word, score)
      → Close keys candidate word score
  best_match-Close keys candidate word score h = elim (Bool-cases (barred candidate)) [
    | inl bad ↦ absurd (let e = sym (best_match_barred keys candidate bad) ∙ h in cc)
    | inr fine ↦
        let v =
          subst (BestScored keys candidate) (sym (best_match_fine keys candidate fine) ∙ h)
            (best_of-Scored keys candidate keys none (λ k h. h) tt) in
        record {
          is_key = ground (arith, fine);
          short = ground (arith, fine);
          key = v.key;
          listed = v.listed;
          named = v.named;
          considered = score_key-Considered f levenshtein threshold candidate v.key score v.scores;
        }
  ]

  -- No close word has a score under the match's, and without a match no word is close.
  pub best_match_least :
      (keys : List Key) (candidate word : Text) (x : F64)
      → Close keys candidate word x
      → Under (best_match f levenshtein candidate words keys threshold) x
  best_match_least keys candidate word x c =
      let fine : barred candidate ≡ false = ground (arith, c.is_key, c.short) in
      subst (λ o. Under o x) (sym (best_match_fine keys candidate fine))
        (best_of_covers candidate word x none c.listed c.named
          (Considered-score_key f levenshtein threshold candidate c.key x c.considered))
