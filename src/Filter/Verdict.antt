-- ===== src/Filter/Verdict.antt =====
-- What `evaluate` of crates/daemon/src/filter.rs promises, said without its code.
use whispy.Base.{
  ℕ, true, false, List, [], ◌∷◌, ◌≡◌, ◌⊎◌, inl, inr, refl, list_eq, list_eq_iff, arith, Bool-cases,
  true_of_not, false_of_not, ◌∙◌, sym, ◌↔◌, subst,
}
use whispy.Filter.{
  FilterConfig, Hallucinations, Metrics, Decision, accept, drop, low_confidence, empty,
  hallucination, is_low, is_punctuation, has_content, is_listed, normalize, evaluate,
}
use whispy.Float.{F64, f32, f64, float_lt, float_le}
use whispy.Text.Chars.{Chars}
use whispy.Text.{Text, trim, trim_start, trim_end, push_trimmed, is_whitespace}

-- A clip that is more silent than allowed, or less sure than asked.
abbrev pub IsLow : Metrics → FilterConfig → Type 0
IsLow m cfg =
    (float_lt f32 cfg.no_speech_prob_max m.no_speech_prob ≡ true)
    ⊎ (float_lt f32 m.avg_logprob cfg.avg_logprob_min ≡ true)

module _ (u : Chars) where
  -- Every character of the text as it came is white space or punctuation.
  pub data IsBlank : Text → Type 0 where
    end : IsBlank []
    space : {c : ℕ} {s : Text} → is_whitespace c ≡ true → IsBlank s → IsBlank (c ∷ s)
    mark : {c : ℕ} {s : Text} → is_punctuation u c ≡ true → IsBlank s → IsBlank (c ∷ s)

  -- White space at the ends does not matter for emptiness.
  has_content-trim_start : (s : Text) → has_content u (trim_start s) ≡ has_content u s
  unfolding has_content
  has_content-trim_start [] = refl
  has_content-trim_start (c ∷ s) = ground (arith, has_content-trim_start s)

  has_content-push_trimmed :
      (c : ℕ) (s : Text) → has_content u (push_trimmed c s) ≡ has_content u (c ∷ s)
  unfolding has_content
  has_content-push_trimmed c [] = ground arith
  has_content-push_trimmed c (d ∷ s) = refl

  has_content-cons :
      (c : ℕ) (s t : Text)
      → has_content u s ≡ has_content u t
      → has_content u (c ∷ s) ≡ has_content u (c ∷ t)
  unfolding has_content
  has_content-cons c s t e = ground arith

  has_content-trim_end : (s : Text) → has_content u (trim_end s) ≡ has_content u s
  has_content-trim_end [] = refl
  has_content-trim_end (c ∷ s) =
      has_content-push_trimmed c (trim_end s)
      ∙ has_content-cons c (trim_end s) s (has_content-trim_end s)

  has_content-trim : (s : Text) → has_content u (trim s) ≡ has_content u s
  has_content-trim s = has_content-trim_end (trim_start s) ∙ has_content-trim_start s

  has_content-IsBlank : (s : Text) → has_content u s ≡ false → IsBlank s
  unfolding has_content
  has_content-IsBlank [] h = end
  has_content-IsBlank (c ∷ s) h = elim (Bool-cases (is_whitespace c)) [
    | inl w ↦ space w (has_content-IsBlank s (ground arith))
    | inr w ↦ mark (ground arith) (has_content-IsBlank s (ground arith))
  ]

  IsBlank-has_content : {s : Text} → IsBlank s → has_content u s ≡ false
  unfolding has_content
  IsBlank-has_content end = refl
  IsBlank-has_content (space w b) = ground (arith, IsBlank-has_content b)
  IsBlank-has_content (mark w b) = ground (arith, IsBlank-has_content b)

module _ (similarity : Text → Text → F64) where
  -- Some phrase is the candidate, or at least as similar as the ratio asks.
  pub data Listed (cfg : FilterConfig) (candidate : Text) : List Text → Type 0 where
    exact : {p : Text} {ps : List Text} → candidate ≡ p → Listed cfg candidate (p ∷ ps)
    fuzzy :
        {p : Text} {ps : List Text}
        → float_le f64 cfg.fuzzy_ratio (similarity candidate p) ≡ true
        → Listed cfg candidate (p ∷ ps)
    later : {p : Text} {ps : List Text} → Listed cfg candidate ps → Listed cfg candidate (p ∷ ps)

  is_listed-Listed :
      (cfg : FilterConfig) (candidate : Text) (ps : List Text)
      → is_listed similarity cfg candidate ps ≡ true
      → Listed cfg candidate ps
  unfolding is_listed
  is_listed-Listed cfg candidate [] h = cc
  is_listed-Listed cfg candidate (p ∷ ps) h = elim (Bool-cases (list_eq candidate p)) [
    | inl e ↦ exact ((list_eq_iff candidate p).0 e)
    | inr e ↦ elim (Bool-cases (float_le f64 cfg.fuzzy_ratio (similarity candidate p))) [
      | inl f ↦ fuzzy f
      | inr f ↦ later (is_listed-Listed cfg candidate ps (ground arith))
    ]
  ]

  Listed-is_listed :
      (cfg : FilterConfig) (candidate : Text) {ps : List Text}
      → Listed cfg candidate ps
      → is_listed similarity cfg candidate ps ≡ true
  unfolding is_listed
  Listed-is_listed cfg candidate (exact {p} e) = ground (arith, (list_eq_iff candidate p).1 e)
  Listed-is_listed cfg candidate (fuzzy f) = ground arith
  Listed-is_listed cfg candidate (later l) = ground (arith, Listed-is_listed cfg candidate l)

module _ (u : Chars) (similarity : Text → Text → F64) where
  -- The decision, by the first check that applies.
  pub data Verdict (text : Text) (m : Metrics) (cfg : FilterConfig) (h : Hallucinations)
      : Decision → Type 0 where
    low : IsLow m cfg → Verdict text m cfg h (drop low_confidence)
    blank : ¬ IsLow m cfg → IsBlank u text → Verdict text m cfg h (drop empty)
    listed :
        ¬ IsLow m cfg
        → ¬ IsBlank u text
        → Listed similarity cfg (normalize u (trim text)) h.phrases
        → Verdict text m cfg h (drop hallucination)
    kept :
        ¬ IsLow m cfg
        → ¬ IsBlank u text
        → ¬ Listed similarity cfg (normalize u (trim text)) h.phrases
        → Verdict text m cfg h (accept (trim text))

  is_low-IsLow : (m : Metrics) (cfg : FilterConfig) → (is_low m cfg ≡ true) ↔ IsLow m cfg
  unfolding is_low
  is_low-IsLow m cfg = (λ h. ground arith, λ h. ground arith)

  module _ (text : Text) (m : Metrics) (cfg : FilterConfig) (h : Hallucinations) where
    abbrev candidate : Text
    candidate = normalize u (trim text)

    not-IsLow : is_low m cfg ≡ false → ¬ IsLow m cfg
    not-IsLow e l = cc ((is_low-IsLow m cfg).1 l)

    not-IsBlank : has_content u (trim text) ≡ true → ¬ IsBlank u text
    not-IsBlank e b = cc (has_content-trim u text, IsBlank-has_content u b)

    not-Listed :
        is_listed similarity cfg candidate h.phrases ≡ false
        → ¬ Listed similarity cfg candidate h.phrases
    not-Listed e l = cc (Listed-is_listed similarity cfg candidate l)

    is_low-false : ¬ IsLow m cfg → is_low m cfg ≡ false
    is_low-false n = false_of_not _ (λ e. n ((is_low-IsLow m cfg).0 e))

    has_content-true : ¬ IsBlank u text → has_content u (trim text) ≡ true
    has_content-true n =
        true_of_not _ (λ e. n (has_content-IsBlank u text (sym (has_content-trim u text) ∙ e)))

    is_listed-false :
        ¬ Listed similarity cfg candidate h.phrases
        → is_listed similarity cfg candidate h.phrases ≡ false
    is_listed-false n =
        false_of_not _ (λ e. n (is_listed-Listed similarity cfg candidate h.phrases e))

    evaluate-Verdict : Verdict text m cfg h (evaluate u similarity text m cfg h)
    unfolding evaluate
    evaluate-Verdict = elim (Bool-cases (is_low m cfg)) [
      | inl e ↦ rw e (low ((is_low-IsLow m cfg).0 e))
      | inr e ↦ rw e (elim (Bool-cases (has_content u (trim text))) [
        | inr none ↦ rw none (
            blank (not-IsLow e) (has_content-IsBlank u text (sym (has_content-trim u text) ∙ none)))
        | inl some ↦
            rw some
              (elim (Bool-cases (is_listed similarity cfg (normalize u (trim text)) h.phrases)) [
                | inl hit ↦ rw hit (
                    listed (not-IsLow e) (not-IsBlank some)
                      (is_listed-Listed similarity cfg (normalize u (trim text)) h.phrases hit))
                | inr miss ↦ rw miss (kept (not-IsLow e) (not-IsBlank some) (not-Listed miss))
              ])
      ])
    ]

    Verdict-evaluate :
        {d : Decision} → Verdict text m cfg h d → evaluate u similarity text m cfg h ≡ d
    unfolding evaluate
    Verdict-evaluate (low l) = rw ((is_low-IsLow m cfg).1 l)
    Verdict-evaluate (blank l b) =
        rw (is_low-false l, has_content-trim u text, IsBlank-has_content u b)
    Verdict-evaluate (listed l b i) =
        rw (is_low-false l, has_content-true b, Listed-is_listed similarity cfg candidate i)
    Verdict-evaluate (kept l b i) = rw (is_low-false l, has_content-true b, is_listed-false i)

  -- The filter's decision is that of the first check that applies, and no other: low confidence,
  -- then a text of white space and punctuation alone (as it came, not as trimmed), then a listed
  -- phrase; what passes all three is accepted, trimmed and otherwise unchanged.
  pub evaluate-Verdict_iff :
      (text : Text) (m : Metrics) (cfg : FilterConfig) (h : Hallucinations) (d : Decision)
      → (evaluate u similarity text m cfg h ≡ d) ↔ Verdict text m cfg h d
  evaluate-Verdict_iff text m cfg h d = (
    λ e. subst (Verdict text m cfg h) e (evaluate-Verdict text m cfg h),
    Verdict-evaluate text m cfg h,
  )
