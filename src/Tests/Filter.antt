-- ===== src/Tests/Filter.antt =====
-- The filter on concrete transcripts: crates/daemon/src/filter.rs.
use whispy.Base.{[], ◌∷◌, ◌≡◌, ◌↔◌, refl}
use whispy.Filter.Verdict.{Verdict, evaluate-Verdict_iff}
use whispy.Filter.{
  FilterConfig, Hallucinations, Metrics, Decision, accept, drop, low_confidence, empty,
  hallucination, evaluate, from_phrases,
}
use whispy.Text.Chars.{ascii}
use whispy.Text.{Text, codes}

-- 0.6, -1.0 and 0.9; the clip's -0.1 and 0.1.
abbrev pub config : FilterConfig
config = record {
  no_speech_prob_max = 1058642330;
  avg_logprob_min = 3212836864;
  fuzzy_ratio = 4606281698874543309;
}

abbrev sure : Metrics
sure = record { avg_logprob = 3184315597; no_speech_prob = 1036831949 }

abbrev silent : Metrics
silent = record { avg_logprob = 3184315597; no_speech_prob = 1063675494 }

abbrev pub blacklist : Hallucinations
blacklist = from_phrases ascii (codes "Thank you." ∷ [])

abbrev decide : Text → Metrics → Decision
decide text m = evaluate ascii (λ _ _. 0) text m config blacklist

accepted : decide (codes " hello ") sure ≡ accept (codes "hello")
unfolding evaluate whispy.Float.float_lt whispy.Text.is_whitespace from_phrases
    whispy.Float.float_le
accepted = refl

too_silent : decide (codes "hello") silent ≡ drop low_confidence
unfolding evaluate whispy.Float.float_lt
too_silent = refl

blank : decide (codes " ... ") sure ≡ drop empty
unfolding evaluate whispy.Float.float_lt whispy.Text.is_whitespace
blank = refl

listed : decide (codes " THANK you. ") sure ≡ drop hallucination
unfolding evaluate whispy.Float.float_lt whispy.Text.is_whitespace from_phrases
listed = refl

evaluate-Verdict_iff_example :
    (decide (codes " hello ") sure ≡ accept (codes "hello"))
    ↔ Verdict ascii (λ _ _. 0) (codes " hello ") sure config blacklist (accept (codes "hello"))
evaluate-Verdict_iff_example =
    evaluate-Verdict_iff ascii (λ _ _. 0) (codes " hello ") sure config blacklist
      (accept (codes "hello"))
