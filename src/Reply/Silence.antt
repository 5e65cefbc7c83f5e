-- ===== src/Reply/Silence.antt =====
-- Silence through both programs: `verbose_json` of crates/stt/src/reply.rs, `aggregate` of
-- crates/daemon/src/stt.rs, `evaluate` of crates/daemon/src/filter.rs.
use whispy.Base.{Option, [], ◌≡◌, refl, if◌then◌else◌}
use whispy.Filter.{
  FilterConfig, Hallucinations, Metrics, drop, low_confidence, empty, is_low, evaluate,
}
use whispy.Float.{F32, F64, Arith}
use whispy.Reply.{Outcome, verbose_json}
use whispy.Stt.{aggregate, normalize_whitespace}
use whispy.Text.Chars.{Chars}
use whispy.Text.Words.{split_whitespace, join}
use whispy.Text.{Text, trim}

-- A model that hears nothing but white space makes the daemon drop the clip: as low in confidence if
-- the thresholds say so of 0.0, or else as empty.
pub verbose_json_silence :
    (f : Arith) (ln : F32 → F32) (u : Chars) (similarity : Text → Text → F64) (outcome : Outcome)
    (hint : Option Text) (cfg : FilterConfig) (h : Hallucinations)
    → trim outcome.text ≡ []
    → let t = aggregate f (verbose_json f ln outcome hint) in
      let m : Metrics = record { avg_logprob = t.avg_logprob; no_speech_prob = t.no_speech_prob } in
      (t.text ≡ [])
      × (evaluate u similarity t.text m cfg h ≡ (
          if is_low (record { avg_logprob = 0; no_speech_prob = 0 }) cfg
          then drop low_confidence
          else drop empty))
unfolding aggregate verbose_json evaluate normalize_whitespace join split_whitespace is_low
verbose_json_silence f ln u similarity outcome hint cfg h silent = rw silent (refl, refl)
