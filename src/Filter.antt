-- ===== src/Filter.antt =====
-- The hallucination filter: crates/daemon/src/filter.rs. The Unicode tables and
-- `strsim::normalized_levenshtein` are arguments.
pub mod Verdict
use whispy.Base.{
  ℕ, Bool, true, false, ◌&&◌, ◌||◌, not, List, [], ◌∷◌, map, any, list_eq, if◌then◌else◌,
}
use whispy.Float.{F32, F64, f32, f64, float_lt, float_le}
use whispy.Text.Chars.{Chars}
use whispy.Text.{Text, codes, trim, is_whitespace, is_ascii_punctuation}

-- `config::Filter`, as far as the filter reads it.
pub record FilterConfig : Type 0 where
  pub no_speech_prob_max : F32
  pub avg_logprob_min : F32
  pub fuzzy_ratio : F64

-- `Hallucinations`: the phrases, normalized.
pub record Hallucinations : Type 0 where
  pub phrases : List Text

pub data DropReason : Type 0 where
  low_confidence empty hallucination : DropReason

-- `DropReason::kind`.
unfoldable pub kind : DropReason → Text
kind low_confidence = codes "low_confidence"
kind empty = codes "empty"
kind hallucination = codes "hallucination"

pub data Decision : Type 0 where
  accept : Text → Decision
  drop : DropReason → Decision

pub record Metrics : Type 0 where
  pub avg_logprob : F32
  pub no_speech_prob : F32

-- The first check of `evaluate`.
unfoldable pub is_low : Metrics → FilterConfig → Bool
is_low m cfg =
    float_lt f32 cfg.no_speech_prob_max m.no_speech_prob
    || float_lt f32 m.avg_logprob cfg.avg_logprob_min

module _ (u : Chars) where
  -- `normalize`.
  unfoldable pub normalize : Text → Text
  normalize s = u.to_lowercase (trim s)

  -- `is_punctuation`.
  unfoldable pub is_punctuation : ℕ → Bool
  is_punctuation c = is_ascii_punctuation c || (not (u.is_alphanumeric c) && not (is_whitespace c))

  -- `Hallucinations::from_phrases`.
  unfoldable pub from_phrases : List Text → Hallucinations
  unfolding normalize
  from_phrases phrases = record { phrases = map normalize phrases }

  -- The second check.
  unfoldable pub has_content : Text → Bool
  unfolding is_punctuation
  has_content s = any (λ c. not (is_whitespace c) && not (is_punctuation c)) s

module _ (similarity : Text → Text → F64) where
  -- The loop over the blacklist: whether it returns before its end.
  unfoldable pub is_listed : FilterConfig → Text → List Text → Bool
  is_listed cfg candidate [] = false
  is_listed cfg candidate (phrase ∷ phrases) =
      let rest = is_listed cfg candidate phrases in
      if list_eq candidate phrase
      then true
      else if float_le f64 cfg.fuzzy_ratio (similarity candidate phrase)
      then true
      else rest

module _ (u : Chars) (similarity : Text → Text → F64) where
  -- `evaluate`.
  unfoldable pub evaluate : Text → Metrics → FilterConfig → Hallucinations → Decision
  unfolding is_low has_content is_listed normalize
  evaluate text metrics cfg blacklist =
      if is_low metrics cfg
      then drop low_confidence
      else let trimmed = trim text in
        if not (has_content u trimmed)
        then drop empty
        else if is_listed similarity cfg (normalize u trimmed) blacklist.phrases
        then drop hallucination
        else accept trimmed
