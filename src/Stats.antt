-- ===== src/Stats.antt =====
-- The summary of the transcript log: crates/daemon/src/stats.rs. A `BTreeMap` is a list in key
-- order; the arithmetic of the mean is an argument.
pub mod Counts
use whispy.Base.{
  ℕ, zero, suc, ◌+◌, Bool, true, false, Option, none, some, List, [], ◌∷◌, ltb, ◌==◌, list_eq,
  if◌then◌else◌,
}
use whispy.Float.{F32, F64}
use whispy.Text.{Text, codes}
use whispy.Transcripts.{Record}

-- The arithmetic of `summarize`: the sum of `f64::from(avg_logprob)`, and the mean as `f32`.
pub record Mean : Type 0 where
  pub add : F64 → F32 → F64
  pub mean : F64 → ℕ → F32

-- `Summary`, with the running sum.
pub record Summary : Type 0 where
  pub total : ℕ
  pub accepted : ℕ
  pub dropped : List (Text × ℕ)
  pub mean_accepted_logprob : F32
  pub logprob_sum : F64

abbrev pub default : Summary
default = record {
  total = 0;
  accepted = 0;
  dropped = [];
  mean_accepted_logprob = 0;
  logprob_sum = 0;
}

-- The order of strings.
abbrev pub text_lt : Text → Text → Bool
text_lt [] [] = false
text_lt [] (d ∷ ds) = true
text_lt (c ∷ cs) [] = false
text_lt (c ∷ cs) (d ∷ ds) = if c == d then text_lt cs ds else ltb c d

-- `*dropped.entry(reason).or_insert(0) += 1`.
unfoldable pub count_reason : Text → List (Text × ℕ) → List (Text × ℕ)
count_reason reason [] = (reason, 1) ∷ []
count_reason reason ((key, n) ∷ rest) =
    let later = count_reason reason rest in
    if list_eq reason key
    then (key, n + 1) ∷ rest
    else if text_lt reason key
    then (reason, 1) ∷ (key, n) ∷ rest
    else (key, n) ∷ later

abbrev pub reason_or_unknown : Option Text → Text
reason_or_unknown none = codes "unknown"
reason_or_unknown (some reason) = reason

module _ (f : Mean) where
  -- The body of the loop.
  unfoldable pub add_record : Record → Summary → Summary
  unfolding count_reason
  add_record rec s =
      if rec.accepted
      then record s {
        total = s.total + 1;
        accepted = s.accepted + 1;
        logprob_sum = f.add s.logprob_sum rec.avg_logprob;
      }
      else record s {
        total = s.total + 1;
        dropped = count_reason (reason_or_unknown rec.drop_reason) s.dropped;
      }

  unfoldable pub add_records : List Record → Summary → Summary
  unfolding add_record
  add_records [] s = s
  add_records (r ∷ rs) s = add_records rs (add_record r s)

  -- `summarize`.
  unfoldable pub summarize : List Record → Summary
  unfolding add_records
  summarize records =
      let s = add_records records default in
      if ltb 0 s.accepted
      then record s { mean_accepted_logprob = f.mean s.logprob_sum s.accepted }
      else s
