-- ===== src/Reply.antt =====
-- The server's reply: crates/stt/src/reply.rs, less the WAV decoding. Float arithmetic is an
-- argument.
pub mod Silence
use whispy.Base.{
  ℕ, Bool, true, false, ◌&&◌, not, Option, none, some, List, [], ◌∷◌, ◌++◌, map, length, list_eq,
  if◌then◌else◌,
}
use whispy.Float.{F32, f32, float_lt, is_nan, magnitude, Arith}
use whispy.Inference.{Segment, Response}
use whispy.Multipart.{eq_ignore_ascii_case}
use whispy.Stt.{sum_from}
use whispy.Text.Words.{is_empty}
use whispy.Text.{Text, codes, trim, to_ascii_lowercase}

-- `Outcome`.
pub record Outcome : Type 0 where
  pub text : Text
  pub language : Option Text
  pub token_probs : List F32

-- The logarithms of `avg_logprob`; `ln` is `p.min(1.0).ln()`.
module _ (f : Arith) (ln : F32 → F32) where
  -- `p.is_finite() && **p > 0.0`.
  abbrev pub is_positive : F32 → Bool
  is_positive p = float_lt f32 (magnitude f32 p) f32.infinity && float_lt f32 0 p

  unfoldable pub logs_of : List F32 → List F32
  logs_of [] = []
  logs_of (p ∷ ps) = if is_positive p then ln p ∷ logs_of ps else logs_of ps

  abbrev pub mean_of : List F32 → F32
  mean_of [] = 0
  mean_of (l ∷ ls) = f.div (sum_from f 0 (l ∷ ls)) (f.of_nat (length (l ∷ ls)))

  -- `avg_logprob`.
  unfoldable pub avg_logprob : List F32 → F32
  unfolding logs_of sum_from
  avg_logprob probs = mean_of (logs_of probs)

-- The arms of `language_name`.
abbrev pub names : List (Text × Text)
names =
    (codes "it", codes "italian")
    ∷ (codes "en", codes "english")
    ∷ (codes "es", codes "spanish")
    ∷ (codes "fr", codes "french")
    ∷ (codes "de", codes "german")
    ∷ (codes "pt", codes "portuguese")
    ∷ (codes "nl", codes "dutch")
    ∷ (codes "pl", codes "polish")
    ∷ (codes "ru", codes "russian")
    ∷ (codes "uk", codes "ukrainian")
    ∷ (codes "cs", codes "czech")
    ∷ (codes "sv", codes "swedish")
    ∷ (codes "da", codes "danish")
    ∷ (codes "fi", codes "finnish")
    ∷ (codes "el", codes "greek")
    ∷ (codes "hu", codes "hungarian")
    ∷ (codes "ro", codes "romanian")
    ∷ []

abbrev pub find_named : Text → Text → List (Text × Text) → Text
find_named lower code [] = code
find_named lower code ((iso, name) ∷ rest) =
    if list_eq lower iso then name else find_named lower code rest

-- `language_name`.
unfoldable pub language_name : Text → Text
language_name code = find_named (map to_ascii_lowercase code) code names

abbrev pub or_else : Option Text → Option Text → Option Text
or_else none b = b
or_else (some a) b = some a

abbrev pub map_name : Option Text → Option Text
unfolding language_name
map_name none = none
map_name (some code) = some (language_name code)

-- `language_hint`.
unfoldable pub language_hint : Option Text → Option Text
language_hint none = none
language_hint (some field) =
    let l = trim field in
    if not (is_empty l) && not (eq_ignore_ascii_case l (codes "auto"))
    then some (map to_ascii_lowercase l)
    else none

module _ (f : Arith) (ln : F32 → F32) where
  -- `verbose_json`.
  unfoldable pub verbose_json : Outcome → Option Text → Response
  unfolding avg_logprob map_name
  verbose_json outcome hinted_language =
      let text = trim outcome.text in
      record {
        text = text;
        detected_language = map_name (or_else outcome.language hinted_language);
        segments =
            if is_empty text
            then []
            else record {
              text = text;
              avg_logprob = avg_logprob f ln outcome.token_probs;
              no_speech_prob = 0;
            }
              ∷ [];
      }
