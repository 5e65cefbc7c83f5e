-- ===== src/Vocab/Windows.antt =====
-- What `apply` of crates/daemon/src/vocab.rs does to a transcript.
use whispy.Base.{
  ℕ, zero, suc, ◌-◌, ◌≤◌, ◌<◌, Option, none, some, List, [], ◌∷◌, ◌++◌, ◌≡◌, ◌≢◌, refl, ap, sym,
  subst, arith, length, take, drop,
}
use whispy.Float.{F64, Arith}
use whispy.Text.Chars.{Chars}
use whispy.Text.Words.{split_whitespace, join}
use whispy.Text.{Text, codes}
use whispy.Vocab.Tokens.{Key, keys_from}
use whispy.Vocab.{Best, best_window, dressed, next_piece, apply_loop, apply}
use whispy.Vocab.Dressed.{Dressed, dressed-Dressed}
use whispy.Vocab.Fits.{
  Fits, Misfit, Closest, BestFits, best_window-Closest, best_window-Fits, best_window-Misfit,
}

module _ (u : Chars) (f : Arith) (levenshtein : Text → Text → ℕ) (words : List Text)
    (threshold : F64) where
  -- Token after token, each stays as it is where no custom word fits, or opens a window that a
  -- custom word that fits takes the place of.
  pub data Corrected (keys : List Key) : List Text → List Text → Type 0 where
    end : Corrected keys [] []
    kept :
        {t : Text} {ts out : List Text}
        → Misfit u f levenshtein words threshold keys (t ∷ ts)
        → Corrected keys ts out
        → Corrected keys (t ∷ ts) (t ∷ out)
    fixed :
        {window rest out : List Text} {word piece : Text} {score : F64}
        → Fits u f levenshtein words threshold keys window word score
        → Closest u f levenshtein words threshold keys (window ++ rest) score
        → Dressed u f levenshtein window word piece
        → Corrected keys rest out
        → Corrected keys (window ++ rest) (piece ∷ out)

  take-drop : (n : ℕ) (ts : List Text) → take n ts ++ drop n ts ≡ ts
  take-drop zero ts = refl
  take-drop (suc n) [] = refl
  take-drop (suc n) (t ∷ ts) = ap (◌∷◌ t) (take-drop n ts)

  length-drop : (n : ℕ) (ts : List Text) → length (drop n ts) ≡ length ts - n
  length-drop zero ts = omega arith
  length-drop (suc n) [] = omega arith
  length-drop (suc n) (t ∷ ts) = omega (arith, length-drop n ts)

  abbrev Result : List Key → List Text → Option (List Text) → Type 0
  Result keys tokens o = (out : List Text) × (o ≡ some out) × Corrected keys tokens out

  apply_loop_step :
      (fuel : ℕ) (keys : List Key) (t piece : Text) (ts out : List Text) (n : ℕ)
      → next_piece u f levenshtein words keys threshold t ts ≡ (n, piece)
      → apply_loop u f levenshtein words keys threshold fuel (drop n (t ∷ ts)) ≡ some out
      → apply_loop u f levenshtein words keys threshold (suc fuel) (t ∷ ts) ≡ some (piece ∷ out)
  unfolding apply_loop
  apply_loop_step fuel keys t piece ts out n e eq =
      rw (e, apply_loop) (rw eq (ap (λ p. some (p.1 ∷ out)) e))

  next_piece-none :
      (keys : List Key) (t : Text) (ts : List Text)
      → best_window u f levenshtein words keys threshold (t ∷ ts) ≡ none
      → next_piece u f levenshtein words keys threshold t ts ≡ (1, t)
  unfolding next_piece
  next_piece-none keys t ts e = rw (next_piece, e) refl

  next_piece-some :
      (keys : List Key) (t word : Text) (ts : List Text) (n : ℕ) (score : F64)
      → best_window u f levenshtein words keys threshold (t ∷ ts) ≡ some (n, word, score)
      → next_piece u f levenshtein words keys threshold t ts
        ≡ (n, dressed u f levenshtein (take n (t ∷ ts)) word)
  unfolding next_piece
  next_piece-some keys t word ts n score e = rw (next_piece, e) refl

  window_Dressed :
      (t : Text) (ts : List Text) (n : ℕ) (word : Text)
      → {keys : List Key} {score : F64}
      → Fits u f levenshtein words threshold keys (take n (t ∷ ts)) word score
      → Dressed u f levenshtein
          (take n (t ∷ ts))
          word
          (dressed u f levenshtein (take n (t ∷ ts)) word)
  window_Dressed t ts zero word fits = absurd (omega (arith, fits.some_words))
  window_Dressed t ts (suc n) word fits = dressed-Dressed u f levenshtein t (take n ts) word

  apply_loop_best :
      (fuel : ℕ) (keys : List Key) (t : Text) (ts : List Text) (b : Best)
      → best_window u f levenshtein words keys threshold (t ∷ ts) ≡ b
      → BestFits u f levenshtein words threshold keys (t ∷ ts) b
      → ((rest : List Text)
          → length rest ≤ length ts
          → Result keys rest (apply_loop u f levenshtein words keys threshold fuel rest))
      → Result keys (t ∷ ts) (apply_loop u f levenshtein words keys threshold (suc fuel) (t ∷ ts))
  apply_loop_best fuel keys t ts none e v ih =
      let (out, eq, c) = ih ts (omega arith) in
      (
        t ∷ out,
        apply_loop_step fuel keys t t ts out 1 (next_piece-none keys t ts e) eq,
        kept (best_window-Misfit u f levenshtein words threshold keys (t ∷ ts) e) c,
      )
  apply_loop_best fuel keys t ts (some (n, word, score)) e (fits, len) ih =
      let (out, eq, c) =
        ih (drop n (t ∷ ts)) (omega (arith, length-drop n (t ∷ ts), fits.some_words, len)) in
      let closest =
        subst (λ ws. Closest u f levenshtein words threshold keys ws score)
          (sym (take-drop n (t ∷ ts)))
          (best_window-Closest u f levenshtein words threshold keys (t ∷ ts) n word score e) in
      (
        dressed u f levenshtein (take n (t ∷ ts)) word ∷ out,
        apply_loop_step fuel keys t _ ts out n (next_piece-some keys t word ts n score e) eq,
        subst (λ ws. Corrected keys ws (dressed u f levenshtein (take n (t ∷ ts)) word ∷ out))
            (take-drop n (t ∷ ts)) (fixed fits closest (window_Dressed t ts n word fits) c),
      )

  apply_loop-Corrected :
      (fuel : ℕ) (keys : List Key) (tokens : List Text)
      → length tokens < fuel
      → Result keys tokens (apply_loop u f levenshtein words keys threshold fuel tokens)
  apply_loop-Corrected zero keys tokens h = absurd (omega arith)
  apply_loop-Corrected (suc fuel) keys [] h = ([], unfold apply_loop in refl, end)
  apply_loop-Corrected (suc fuel) keys (t ∷ ts) h =
      apply_loop_best fuel keys t ts _ refl
        (best_window-Fits u f levenshtein words threshold keys (t ∷ ts))
        (λ rest le. apply_loop-Corrected fuel keys rest (omega arith))

-- Correcting a transcript always ends. Without custom words it changes nothing; else it gives the
-- transcript's words, joined by single blanks: from left to right, a word stays as it was if no custom
-- word fits a window that starts there, and else a custom word that fits takes the place of the
-- window, one such that none fits a window from there with a lower score, in the case of its first
-- word and between the punctuation before the first and behind the last. A window is one to three
-- words, none but the last with punctuation behind it. A custom word fits if the letters and digits
-- of the window, 1 to 50 of ASCII, are near to a key of it in length, have few edits if they sound
-- alike and else a small distance, and score under the threshold.
pub apply-Corrected :
    (u : Chars) (f : Arith) (levenshtein : Text → Text → ℕ) (words : List Text) (threshold : F64)
    (text : Text)
    → ((words ≡ []) → apply u f levenshtein text words threshold ≡ some text)
      × ((words ≢ [])
          → (out : List Text) × (apply u f levenshtein text words threshold
              ≡ some (join (codes " ") out))
            × Corrected u f levenshtein words threshold
                (keys_from u 0 words)
                (split_whitespace text)
                out)
unfolding apply
apply-Corrected u f levenshtein [] threshold text = (λ _. refl, λ ne. absurd (ne refl))
apply-Corrected u f levenshtein (w ∷ ws) threshold text =
    let (out, e, c) =
      apply_loop-Corrected u f levenshtein (w ∷ ws) threshold (suc (length (split_whitespace text)))
        (keys_from u 0 (w ∷ ws)) (split_whitespace text) (omega arith) in
    (λ h. cc, λ _. (out, rw (e, apply) refl, c))
