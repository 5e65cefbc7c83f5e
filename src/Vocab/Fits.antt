-- ===== src/Vocab/Fits.antt =====
-- The window that `apply` of crates/daemon/src/vocab.rs corrects, and when it corrects none.
use whispy.Base.{
  ℕ, zero, suc, ◌≤◌, ◌<◌, true, Option, none, some, List, [], ◌∷◌, ◌≡◌, inl, inr, refl, sym, subst,
  arith, length, take, ltb, false, Bool-cases,
}
use whispy.Float.{F64, f64, float_lt, Arith}
use whispy.Text.Chars.{Chars}
use whispy.Text.{Text}
use whispy.Vocab.Tokens.{Key}
use whispy.Vocab.{
  Best, best_match, joined_key, is_unbroken, improves, improve, try_window, best_window,
}
use whispy.Vocab.Close.{Close, Under, best_match-Close, best_match_least}
use whispy.Vocab.Least.{not_under_less, not_under_more}

module _ (u : Chars) (f : Arith) (levenshtein : Text → Text → ℕ) (words : List Text)
    (threshold : F64) where
  -- One to three words, none but the last with punctuation behind it, that together are close to
  -- the custom word.
  pub record Fits (keys : List Key) (window : List Text) (word : Text) (score : F64) : Type 0 where
    pub some_words : 1 ≤ length window
    pub few_words : length window ≤ 3
    pub unbroken : is_unbroken u f levenshtein window ≡ true
    pub close :
        Close f levenshtein words threshold keys (joined_key u f levenshtein window) word score

  -- No custom word fits a window that starts here.
  abbrev pub Misfit : List Key → List Text → Type 0
  Misfit keys tokens =
      (n : ℕ) (word : Text) (x : F64) → n ≤ length tokens → ¬ Fits keys (take n tokens) word x

  -- No custom word fits a window that starts here with a score under the given one.
  abbrev pub Closest : List Key → List Text → F64 → Type 0
  Closest keys tokens score =
      (n : ℕ) (word : Text) (x : F64)
      → n ≤ length tokens
      → Fits keys (take n tokens) word x
      → float_lt f64 x score ≡ false

  abbrev pub BestFits : List Key → List Text → Best → Type 0
  BestFits keys tokens none = Unit
  BestFits keys tokens (some (n, word, score)) =
      Fits keys (take n tokens) word score × (length (take n tokens) ≡ n)

  length-take : (n : ℕ) (ts : List Text) → n ≤ length ts → length (take n ts) ≡ n
  length-take zero ts h = refl
  length-take (suc n) [] h = absurd (omega arith)
  length-take (suc n) (t ∷ ts) h = omega (arith, length-take n ts)

  improve-Fits :
      (keys : List Key) (tokens : List Text) (n : ℕ) (best : Best) (o : Option (Text × F64))
      → 1 ≤ n
      → n ≤ 3
      → n ≤ length tokens
      → is_unbroken u f levenshtein (take n tokens) ≡ true
      → best_match f levenshtein (joined_key u f levenshtein (take n tokens)) words keys threshold
        ≡ o
      → BestFits keys tokens best
      → BestFits keys tokens (improve u f levenshtein n o best)
  improve-Fits keys tokens n best none lo hi enough whole e v = v
  improve-Fits keys tokens n best (some (word, score)) lo hi enough whole e v =
      elim (Bool-cases (improves u f levenshtein score best)) [
        | inl first ↦ rw first (
          record {
            some_words = omega (arith, length-take n tokens enough);
            few_words = omega (arith, length-take n tokens enough);
            unbroken = whole;
            close =
                best_match-Close f levenshtein words threshold keys
                  (joined_key u f levenshtein (take n tokens)) word score e;
          },
          length-take n tokens enough,
        )
        | inr later ↦ rw later v
      ]

  try_window-Fits :
      (keys : List Key) (tokens : List Text) (n : ℕ) (best : Best)
      → 1 ≤ n
      → n ≤ 3
      → BestFits keys tokens best
      → BestFits keys tokens (try_window u f levenshtein words keys threshold tokens n best)
  unfolding try_window
  try_window-Fits keys tokens n best lo hi v = elim (Bool-cases (ltb (length tokens) n)) [
    | inl short ↦ rw short v
    | inr enough ↦ elim (Bool-cases (is_unbroken u f levenshtein (take n tokens))) [
      | inl whole ↦
          rw (enough, whole) (improve-Fits keys tokens n best _ lo hi (ground arith) whole refl v)
      | inr broken ↦ rw (enough, broken) v
    ]
  ]

  pub best_window-Fits :
      (keys : List Key) (tokens : List Text)
      → BestFits keys tokens (best_window u f levenshtein words keys threshold tokens)
  unfolding best_window
  best_window-Fits keys tokens =
      let three = try_window-Fits keys tokens 3 none (omega arith) (omega arith) tt in
      let two = try_window-Fits keys tokens 2 _ (omega arith) (omega arith) three in
      try_window-Fits keys tokens 1 _ (omega arith) (omega arith) two

  -- There is a best window, and the score is not under its score.
  abbrev pub BestUnder : Best → F64 → Type 0
  BestUnder none x = ⊥
  BestUnder (some (n, word, score)) x = float_lt f64 x score ≡ false

  improve_keeps :
      (n : ℕ) (o : Option (Text × F64)) (best : Best) (x : F64)
      → BestUnder best x
      → BestUnder (improve u f levenshtein n o best) x
  improve_keeps n none best x v = v
  improve_keeps n (some (w, y)) none x v = absurd v
  improve_keeps n (some (w, y)) (some (m, b, z)) x v = elim (Bool-cases (float_lt f64 y z)) [
    | inl less ↦ rw less (not_under_less x y z less v)
    | inr other ↦ rw other v
  ]

  improve_covers :
      (n : ℕ) (o : Option (Text × F64)) (best : Best) (x : F64)
      → ((w : Text) (y : F64) → o ≡ some (w, y) → float_lt f64 y threshold ≡ true)
      → Under f levenshtein words threshold o x
      → BestUnder (improve u f levenshtein n o best) x
  improve_covers n none best x h v = absurd v
  improve_covers n (some (w, y)) none x h v = v
  improve_covers n (some (w, y)) (some (m, b, z)) x h v = elim (Bool-cases (float_lt f64 y z)) [
    | inl less ↦ rw less v
    | inr other ↦ rw other (not_under_more x y z threshold (h w y refl) v other)
  ]

  try_short :
      (keys : List Key) (tokens : List Text) (n : ℕ) (best : Best)
      → length tokens < n
      → try_window u f levenshtein words keys threshold tokens n best ≡ best
  unfolding try_window
  try_short keys tokens n best short =
      rw (let h : ltb (length tokens) n ≡ true = ground arith in h) refl

  try_broken :
      (keys : List Key) (tokens : List Text) (n : ℕ) (best : Best)
      → is_unbroken u f levenshtein (take n tokens) ≡ false
      → try_window u f levenshtein words keys threshold tokens n best ≡ best
  unfolding try_window
  try_broken keys tokens n best broken = elim (Bool-cases (ltb (length tokens) n)) [
    | inl short ↦ rw short refl
    | inr enough ↦ rw (enough, broken) refl
  ]

  try_whole :
      (keys : List Key) (tokens : List Text) (n : ℕ) (best : Best)
      → n ≤ length tokens
      → is_unbroken u f levenshtein (take n tokens) ≡ true
      → try_window u f levenshtein words keys threshold tokens n best
        ≡ improve u f levenshtein n
            (best_match f levenshtein
              (joined_key u f levenshtein (take n tokens))
              words
              keys
              threshold)
            best
  unfolding try_window
  try_whole keys tokens n best enough whole =
      let h : ltb (length tokens) n ≡ false = ground arith in rw (h, whole) refl

  try_window_keeps :
      (keys : List Key) (tokens : List Text) (n : ℕ) (best : Best) (x : F64)
      → BestUnder best x
      → BestUnder (try_window u f levenshtein words keys threshold tokens n best) x
  try_window_keeps keys tokens n best x v = elim (Bool-cases (ltb (length tokens) n)) [
    | inl short ↦
        subst (λ b. BestUnder b x) (sym (try_short keys tokens n best (ground (arith, short)))) v
    | inr enough ↦ elim (Bool-cases (is_unbroken u f levenshtein (take n tokens))) [
      | inr broken ↦ subst (λ b. BestUnder b x) (sym (try_broken keys tokens n best broken)) v
      | inl whole ↦
          subst (λ b. BestUnder b x)
            (sym (try_whole keys tokens n best (ground (arith, enough)) whole))
            (improve_keeps n _ best x v)
    ]
  ]

  try_window_covers :
      (keys : List Key) (tokens : List Text) (n : ℕ) (best : Best) (word : Text) (x : F64)
      → n ≤ length tokens
      → Fits keys (take n tokens) word x
      → BestUnder (try_window u f levenshtein words keys threshold tokens n best) x
  try_window_covers keys tokens n best word x le fits =
      subst (λ b. BestUnder b x) (sym (try_whole keys tokens n best le fits.unbroken))
        (improve_covers n _ best x
          (λ w y e.
            (best_match-Close f levenshtein words threshold keys
              (joined_key u f levenshtein (take n tokens)) w y e).considered.under)
          (best_match_least f levenshtein words threshold keys
            (joined_key u f levenshtein (take n tokens)) word x fits.close))

  -- Whatever fits, there is a best window, and its score is not the greater one.
  best_window_least :
      (keys : List Key) (tokens : List Text) (n : ℕ) (word : Text) (x : F64)
      → n ≤ length tokens
      → Fits keys (take n tokens) word x
      → BestUnder (best_window u f levenshtein words keys threshold tokens) x
  unfolding best_window
  best_window_least keys tokens zero word x le fits = absurd (omega (arith, fits.some_words))
  best_window_least keys tokens (suc zero) word x le fits =
      try_window_covers keys tokens 1 _ word x le fits
  best_window_least keys tokens (suc (suc zero)) word x le fits =
      try_window_keeps keys tokens 1 _ x (try_window_covers keys tokens 2 _ word x le fits)
  best_window_least keys tokens (suc (suc (suc zero))) word x le fits =
      try_window_keeps keys tokens 1 _ x
        (try_window_keeps keys tokens 2 _ x (try_window_covers keys tokens 3 none word x le fits))
  best_window_least keys tokens (suc (suc (suc (suc n)))) word x le fits =
      absurd (omega (arith, fits.few_words, length-take (suc (suc (suc (suc n)))) tokens le))

  pub best_window-Misfit :
      (keys : List Key) (tokens : List Text)
      → best_window u f levenshtein words keys threshold tokens ≡ none
      → Misfit keys tokens
  best_window-Misfit keys tokens h n word x le fits =
      subst (λ b. BestUnder b x) h (best_window_least keys tokens n word x le fits)

  pub best_window-Closest :
      (keys : List Key) (tokens : List Text) (m : ℕ) (w : Text) (score : F64)
      → best_window u f levenshtein words keys threshold tokens ≡ some (m, w, score)
      → Closest keys tokens score
  best_window-Closest keys tokens m w score h n word x le fits =
      subst (λ b. BestUnder b x) h (best_window_least keys tokens n word x le fits)
