-- ===== src/Vocab.antt =====
-- Fuzzy correction against the custom vocabulary: crates/daemon/src/vocab.rs. The Unicode tables,
-- the arithmetic of `f64` and `strsim::levenshtein` are arguments. The loop of `apply` runs on fuel;
-- `none` is the model's own, for fuel that ran out.
pub mod Tokens
pub mod Soundex
pub mod American
pub mod Least
pub mod Score
pub mod Close
pub mod Fits
pub mod Dressed
pub mod Windows
use whispy.Base.{
  ℕ, zero, suc, ◌+◌, ◌-◌, ◌≤◌, Bool, true, false, ◌&&◌, ◌||◌, not, Option, none, some, List, [],
  ◌∷◌, ◌++◌, any, all, length, get_elem?, take, drop, list_eq, ltb, leb, ◌==◌, if◌then◌else◌, max,
}
use whispy.Float.{F64, f64, float_lt, float_le, Arith}
use whispy.Text.Chars.{Chars}
use whispy.Text.Words.{split_whitespace, join, is_empty}
use whispy.Text.{
  Text, codes, is_ascii_alphabetic, is_ascii_alphanumeric, to_ascii_lowercase, to_ascii_uppercase,
}
use whispy.Vocab.Tokens.{
  Key, soundex, is_ascii_key, match_key, keys_for, keys_from, keep_case, split_punctuation,
}

-- `DEFAULT_THRESHOLD` (0.18), `MAX_KEY_CHARS`, `MAX_PHONETIC_EDIT_SHARE` (0.45) and
-- `MAX_PLAIN_DISTANCE` (0.125).
abbrev pub default_threshold : F64
default_threshold = 0x3fc70a3d70a3d70a

abbrev pub max_key_chars : ℕ
max_key_chars = 50

abbrev pub max_phonetic_edit_share : F64
max_phonetic_edit_share = 0x3fdccccccccccccd

abbrev pub max_plain_distance : F64
max_plain_distance = 0x3fc0000000000000

-- The literals 0.25, 2.0 and 0.3.
abbrev quarter : F64
quarter = 0x3fd0000000000000

abbrev two : F64
two = 0x4000000000000000

abbrev phonetic_boost : F64
phonetic_boost = 0x3fd3333333333333

-- `a.abs_diff(b)`.
abbrev abs_diff : ℕ → ℕ → ℕ
abs_diff a b = (a - b) + (b - a)

abbrev same_code : Option Text → Option Text → Bool
same_code (some a) (some b) = list_eq a b
same_code _ _ = false

-- A window's best match so far: how many words, the custom word, and its score.
abbrev pub Best : Type 0
Best = Option (ℕ × Text × F64)

module _ (f : Arith) (levenshtein : Text → Text → ℕ) where
  -- `acceptable`.
  unfoldable pub acceptable : ℕ → ℕ → F64 → Bool → Bool
  acceptable edits key_len distance phonetic =
      if phonetic
      then float_le f64 (f.of_nat edits) (f.mul (f.of_nat key_len) max_phonetic_edit_share)
      else float_lt f64 distance max_plain_distance

  -- The body of the loop of `best_match`: the score of one key, if it may be considered.
  unfoldable pub score_key : Text → Key → F64 → Option F64
  unfolding acceptable soundex
  score_key candidate k threshold =
      let a = length candidate in
      let b = length k.key in
      let max_len = f.of_nat (max a b) in
      if float_lt f64 (f.maximum (f.mul max_len quarter) two) (f.of_nat (abs_diff a b))
      then none
      else let edits = levenshtein candidate k.key in
        let distance = f.div (f.of_nat edits) max_len in
        let phonetic = same_code (soundex candidate) (soundex k.key) in
        if not (acceptable edits b distance phonetic)
        then none
        else let score = if phonetic then f.mul distance phonetic_boost else distance in
          if float_lt f64 score threshold then some score else none

  -- Whether a score is the best so far.
  abbrev pub is_better : F64 → Option (Text × F64) → Bool
  is_better score none = true
  is_better score (some (_, s)) = float_lt f64 score s

  -- The new best after a key with its word.
  abbrev pub better : Option (Text × F64) → Option Text → Option F64 → Option (Text × F64)
  better best (some word) (some score) = if is_better score best then some (word, score) else best
  better best _ _ = best

  unfoldable pub best_of :
      List Text → Text → F64 → List Key → Option (Text × F64) → Option (Text × F64)
  unfolding score_key
  best_of words candidate threshold [] best = best
  best_of words candidate threshold (k ∷ ks) best =
      best_of words candidate threshold ks
        (better best (get_elem? words k.word) (score_key candidate k threshold))

  -- `best_match`. An ASCII text is as long in bytes as in characters.
  unfoldable pub best_match : Text → List Text → List Key → F64 → Option (Text × F64)
  unfolding best_of is_ascii_key
  best_match candidate words keys threshold =
      if not (is_ascii_key candidate) || ltb max_key_chars (length candidate)
      then none
      else best_of words candidate threshold keys none

module _ (u : Chars) (f : Arith) (levenshtein : Text → Text → ℕ) where
  abbrev pub joined_key : List Text → Text
  joined_key [] = []
  joined_key (w ∷ ws) = match_key u w ++ joined_key ws

  -- Whether all words of a window but its last end without punctuation.
  unfoldable pub is_unbroken : List Text → Bool
  unfolding split_punctuation
  is_unbroken [] = true
  is_unbroken (w ∷ []) = true
  is_unbroken (w ∷ v ∷ ws) = is_empty (split_punctuation u w).1 && is_unbroken (v ∷ ws)

  abbrev pub improves : F64 → Best → Bool
  improves score none = true
  improves score (some (_, _, s)) = float_lt f64 score s

  abbrev pub improve : ℕ → Option (Text × F64) → Best → Best
  improve n none best = best
  improve n (some (word, score)) best = if improves score best then some (n, word, score) else best

  -- One turn of the loop over window sizes.
  unfoldable pub try_window : List Text → List Key → F64 → List Text → ℕ → Best → Best
  unfolding is_unbroken match_key best_match
  try_window words keys threshold tokens n best =
      if ltb (length tokens) n
      then best
      else let window = take n tokens in
        if not (is_unbroken window)
        then best
        else improve n (best_match f levenshtein (joined_key window) words keys threshold) best

  unfoldable pub best_window : List Text → List Key → F64 → List Text → Best
  unfolding try_window
  best_window words keys threshold tokens =
      let attempt = try_window words keys threshold tokens in attempt 1 (attempt 2 (attempt 3 none))

  abbrev pub last_of : List Text → Text
  last_of [] = []
  last_of (w ∷ []) = w
  last_of (w ∷ v ∷ ws) = last_of (v ∷ ws)

  -- What replaces a window: its first prefix, the word, its last suffix.
  unfoldable pub dressed : List Text → Text → Text
  unfolding split_punctuation keep_case
  dressed [] word = word
  dressed (t ∷ ts) word =
      (split_punctuation u t).0
      ++ (keep_case u t word ++ (split_punctuation u (last_of (t ∷ ts))).1)

  -- The loop of `apply`, on the tokens from `i` on: how many it passes, and what it puts out.
  unfoldable pub next_piece : List Text → List Key → F64 → Text → List Text → ℕ × Text
  unfolding best_window dressed
  next_piece words keys threshold t ts = elim (best_window words keys threshold (t ∷ ts)) [
    | none ↦ (1, t)
    | some (n, word, _) ↦ (n, dressed (take n (t ∷ ts)) word)
  ]

  unfoldable pub apply_loop : List Text → List Key → F64 → ℕ → List Text → Option (List Text)
  unfolding next_piece
  apply_loop words keys threshold zero tokens = none
  apply_loop words keys threshold (suc fuel) [] = some []
  apply_loop words keys threshold (suc fuel) (t ∷ ts) =
      let (n, piece) = next_piece words keys threshold t ts in
      elim (apply_loop words keys threshold fuel (drop n (t ∷ ts))) [
        | none ↦ none
        | some out ↦ some (piece ∷ out)
      ]

  -- `apply`.
  unfoldable pub apply : Text → List Text → F64 → Option Text
  unfolding apply_loop keys_from
  apply text [] threshold = some text
  apply text (w ∷ ws) threshold =
      let tokens = split_whitespace text in
      elim (apply_loop (w ∷ ws) (keys_from u 0 (w ∷ ws)) threshold (suc (length tokens)) tokens) [
        | none ↦ none
        | some out ↦ some (join (codes " ") out)
      ]
