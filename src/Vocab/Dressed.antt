-- ===== src/Vocab/Dressed.antt =====
-- What takes the place of a window of words: `split_punctuation`, `keep_case` and their use in `apply`,
-- crates/daemon/src/vocab.rs.
use whispy.Base.{
  ℕ, Bool, true, false, ◌&&◌, ◌||◌, not, List, [], ◌∷◌, ◌++◌, ◌≡◌, refl, ap, arith, any, all,
  length, ltb, Bool-cases, inl, inr, if◌then◌else◌,
}
use whispy.Float.{Arith}
use whispy.Text.Chars.{Chars}
use whispy.Text.Words.{is_empty}
use whispy.Text.{Text}
use whispy.Vocab.Tokens.{
  letters, capitalized, is_capitalized, keep_case, lead, trail, split_punctuation,
}
use whispy.Vocab.{last_of, dressed}

module _ (u : Chars) where
  -- What stands before the first letter or digit of a word: all of it, if it has none.
  pub data Before (word pre : Text) : Type 0 where
    whole : any u.is_alphanumeric word ≡ false → pre ≡ word → Before word pre
    first :
        (c : ℕ) (rest : Text)
        → word ≡ pre ++ (c ∷ rest)
        → u.is_alphanumeric c ≡ true
        → any u.is_alphanumeric pre ≡ false
        → Before word pre

  -- What stands behind the last letter or digit of a word: nothing, if it has none.
  pub data Behind (word suf : Text) : Type 0 where
    bare : any u.is_alphanumeric word ≡ false → suf ≡ [] → Behind word suf
    last :
        (front : Text) (c : ℕ)
        → word ≡ front ++ (c ∷ suf)
        → u.is_alphanumeric c ≡ true
        → any u.is_alphanumeric suf ≡ false
        → Behind word suf

  -- All letters are capitals, there is one, and it is not all of the word.
  abbrev pub is_shouted : Text → Bool
  is_shouted word =
      any u.is_alphabetic word
      && (all (λ c. not (u.is_alphabetic c) || u.is_uppercase c) word && ltb 1 (length word))

  -- The custom word in the case of the first word it replaces.
  abbrev pub cased : Text → Text → Text
  cased original word =
      if is_shouted original
      then u.to_uppercase word
      else if is_capitalized u original
      then capitalized u word
      else word

  lead-Before : (word : Text) → any u.is_alphanumeric word ≡ true → Before word (lead u word)
  lead-Before [] h = absurd cc
  lead-Before (c ∷ cs) h = elim (Bool-cases (u.is_alphanumeric c)) [
    | inl here ↦ rw here (first c cs refl here refl)
    | inr there ↦ rw there (one_on c cs there (lead-Before cs (ground (arith, there))))
  ]
    where
      one_on :
          (c : ℕ) (cs : Text)
          → u.is_alphanumeric c ≡ false
          → Before cs (lead u cs)
          → Before (c ∷ cs) (c ∷ lead u cs)
      one_on c cs is_none (whole none_here e) =
          whole (ground (arith, is_none, none_here)) (ap (◌∷◌ c) e)
      one_on c cs is_none (first d rest e is_one none_here) =
          first d rest (ap (◌∷◌ c) e) is_one (ground (arith, is_none, none_here))

  trail-Behind : (word : Text) → any u.is_alphanumeric word ≡ true → Behind word (trail u word)
  trail-Behind [] h = absurd cc
  trail-Behind (c ∷ cs) h = elim (Bool-cases (any u.is_alphanumeric cs)) [
    | inl later ↦ rw later (one_on c cs later (trail-Behind cs later))
    | inr never ↦
        rw never (rw (any_head c cs h never) (last [] c refl (any_head c cs h never) never))
  ]
    where
      any_head :
          (c : ℕ) (cs : Text)
          → any u.is_alphanumeric (c ∷ cs) ≡ true
          → any u.is_alphanumeric cs ≡ false
          → u.is_alphanumeric c ≡ true
      any_head c cs h never = ground (arith, h, never)

      one_on :
          (c : ℕ) (cs : Text)
          → any u.is_alphanumeric cs ≡ true
          → Behind cs (trail u cs)
          → Behind (c ∷ cs) (trail u cs)
      one_on c cs later (bare never e) = absurd cc
      one_on c cs later (last front d e is_one is_none) =
          last (c ∷ front) d (ap (◌∷◌ c) e) is_one is_none

  split-Before : (word : Text) → Before word (split_punctuation u word).0
  unfolding split_punctuation
  split-Before word = elim (Bool-cases (any u.is_alphanumeric word)) [
    | inl some_letter ↦ rw some_letter (lead-Before word some_letter)
    | inr no_letter ↦ rw no_letter (whole no_letter refl)
  ]

  split-Behind : (word : Text) → Behind word (split_punctuation u word).1
  unfolding split_punctuation
  split-Behind word = elim (Bool-cases (any u.is_alphanumeric word)) [
    | inl some_letter ↦ rw some_letter (trail-Behind word some_letter)
    | inr no_letter ↦ rw no_letter (bare no_letter refl)
  ]

  letters-any : (word : Text) → not (is_empty (letters u word)) ≡ any u.is_alphabetic word
  letters-any [] = refl
  letters-any (c ∷ cs) = ground (arith, letters-any cs)

  all-letters :
      (word : Text)
      → all u.is_uppercase (letters u word)
        ≡ all (λ c. not (u.is_alphabetic c) || u.is_uppercase c) word
  all-letters [] = refl
  all-letters (c ∷ cs) = ground (arith, all-letters cs)

  keep_case-cased : (original word : Text) → keep_case u original word ≡ cased original word
  unfolding keep_case
  keep_case-cased original word = rw (letters-any original) (rw (all-letters original) refl)

module _ (u : Chars) (f : Arith) (levenshtein : Text → Text → ℕ) where
  -- The punctuation before the first word, the custom word in the first word's case, and the
  -- punctuation behind the last word.
  pub record Dressed (window : List Text) (word out : Text) : Type 0 where
    pub head : Text
    pub tail : List Text
    pub window_is : window ≡ head ∷ tail
    pub pre : Text
    pub suf : Text
    pub before : Before u head pre
    pub behind : Behind u (last_of u f levenshtein window) suf
    pub put_together : out ≡ pre ++ (cased u head word ++ suf)

  pub dressed-Dressed :
      (t : Text) (ts : List Text) (word : Text)
      → Dressed (t ∷ ts) word (dressed u f levenshtein (t ∷ ts) word)
  unfolding dressed
  dressed-Dressed t ts word = record {
    head = t;
    tail = ts;
    window_is = refl;
    pre = (split_punctuation u t).0;
    suf = (split_punctuation u (last_of u f levenshtein (t ∷ ts))).1;
    before = split-Before u t;
    behind = split-Behind u (last_of u f levenshtein (t ∷ ts));
    put_together = rw (keep_case-cased u t word) refl;
  }
