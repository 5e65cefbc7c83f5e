-- ===== src/Pipeline/Phrases/Replaced.antt =====
-- What `replace_phrase_ci` of crates/daemon/src/pipeline.rs promises, said without indices.
use whispy.Base.{
  ℕ, zero, suc, ◌+◌, ◌<◌, false, Option, some, [], ◌∷◌, ◌++◌, ◌≡◌, ◌≢◌, inl, inr, refl, arith, ap,
  append_assoc, append-nil, ◌∙◌, sym, subst, length, length-append, Bool-cases,
}
use whispy.Pipeline.Phrases.{is_match, replace_loop, replace_phrase_ci}
use whispy.Text.Chars.{Chars}
use whispy.Text.{Text}
use whispy.Pipeline.Phrases.Index.{Hit, HitAt, is_match-Hit, HitAt-is_match, length-SameCi}
use whispy.Pipeline.Phrases.Loop.{char_at-append, loop_end, loop_hit, loop_miss}

module _ (u : Chars) where
  -- From left to right, each hit replaced and passed over whole, all else as it was.
  pub data Replaced (pat to : Text) : Text → Text → Text → Type 0 where
    end : {before : Text} → Replaced pat to before [] []
    hit :
        {before m rest out : Text}
        → Hit u pat before m rest
        → Replaced pat to (before ++ m) rest out
        → Replaced pat to before (m ++ rest) (to ++ out)
    miss :
        {c : ℕ} {before s out : Text}
        → ¬ HitAt u pat before (c ∷ s)
        → Replaced pat to (before ++ (c ∷ [])) s out
        → Replaced pat to before (c ∷ s) (c ∷ out)

  -- What the loop adds to its output.
  abbrev Rest : Text → Text → Text → Text → Option Text → Text → Type 0
  Rest pat to before s result out =
      (r : Text) × (result ≡ some (out ++ r)) × Replaced pat to before s r

  Hit-Rest :
      (fuel : ℕ) (pat to before m rest out : Text)
      → 0 < length pat
      → Hit u pat before m rest
      → Rest pat to
          (before ++ m)
          rest
          (replace_loop u fuel ((before ++ m) ++ rest) pat to (length (before ++ m)) (out ++ to))
          (out ++ to)
      → Rest pat to before
          (m ++ rest)
          (replace_loop u (suc fuel) (before ++ (m ++ rest)) pat to (length before) out)
          out
  Hit-Rest fuel pat to before m rest out pos h (r, e, replaced) =
      let len = length-SameCi u h.same in
      let inside =
        loop_hit u fuel (before ++ (m ++ rest)) pat to out (length before)
          (ground (arith, length-append before (m ++ rest), length-append m rest, len))
          (is_match-Hit u pat before m rest h) in
      (
        to ++ r,
        inside
            ∙ ap (λ t. replace_loop u fuel t pat to (length before + length pat) (out ++ to))
                (sym (append_assoc before m rest))
            ∙ ap (λ k. replace_loop u fuel ((before ++ m) ++ rest) pat to k (out ++ to))
                {y = length (before ++ m)} (omega (arith, length-append before m, len))
            ∙ e
            ∙ ap some (append_assoc out to r),
        hit h replaced,
      )

  miss_Rest :
      (fuel : ℕ) (pat to before s out : Text) (c : ℕ)
      → ¬ HitAt u pat before (c ∷ s)
      → is_match u (before ++ (c ∷ s)) pat (length before) ≡ false
      → Rest pat to
          (before ++ (c ∷ []))
          s
          (replace_loop u fuel
            ((before ++ (c ∷ [])) ++ s)
            pat
            to
            (length (before ++ (c ∷ [])))
            (out ++ (c ∷ [])))
          (out ++ (c ∷ []))
      → Rest pat to before
          (c ∷ s)
          (replace_loop u (suc fuel) (before ++ (c ∷ s)) pat to (length before) out)
          out
  miss_Rest fuel pat to before s out c clear m (r, e, replaced) =
      let inside =
        loop_miss u fuel (before ++ (c ∷ s)) pat to out (length before)
          (ground (arith, length-append before (c ∷ s))) m in
      (
        c ∷ r,
        inside
            ∙ ap
                (λ t. replace_loop u fuel (before ++ (c ∷ s)) pat to (length before + 1) (out ++ t))
                (char_at-append u before s c)
            ∙ ap (λ t. replace_loop u fuel t pat to (length before + 1) (out ++ (c ∷ [])))
                (sym (append_assoc before (c ∷ []) s))
            ∙ ap (λ k. replace_loop u fuel ((before ++ (c ∷ [])) ++ s) pat to k (out ++ (c ∷ [])))
                {y = length (before ++ (c ∷ []))} (omega (arith, length-append before (c ∷ [])))
            ∙ e
            ∙ ap some (append_assoc out (c ∷ []) r),
        miss clear replaced,
      )

  replace_loop-Replaced :
      (fuel : ℕ) (pat to before s out : Text)
      → length s < fuel
      → 0 < length pat
      → Rest pat to before s (replace_loop u fuel (before ++ s) pat to (length before) out) out
  replace_loop-Replaced zero pat to before s out h pos = absurd (omega arith)
  replace_loop-Replaced (suc fuel) pat to before [] out h pos = (
    [],
    loop_end u fuel (before ++ []) pat to out (length before)
          (ground (arith, length-append before []))
        ∙ ap some (sym (append-nil out)),
    end,
  )
  replace_loop-Replaced (suc fuel) pat to before (c ∷ s) out h pos =
      elim (Bool-cases (is_match u (before ++ (c ∷ s)) pat (length before))) [
        | inl matched ↦
            let (m, rest, e, h') = HitAt-is_match u pat before (c ∷ s) matched in
            subst
              (λ t.
                Rest pat to before t
                  (replace_loop u (suc fuel) (before ++ t) pat to (length before) out) out)
              (sym e)
              (Hit-Rest fuel pat to before m rest out pos h' (
                replace_loop-Replaced fuel pat to (before ++ m) rest (out ++ to)
                  (omega (arith, ap length e, length-append m rest, length-SameCi u h'.same)) pos))
        | inr other ↦
            miss_Rest fuel pat to before s out c
              (λ (m, rest, e, h'). cc (
                ap (λ t. is_match u (before ++ t) pat (length before)) e,
                is_match-Hit u pat before m rest h',
              ))
              other
              (replace_loop-Replaced fuel pat to (before ++ (c ∷ [])) s (out ++ (c ∷ []))
                (omega arith) pos)
      ]

  -- Replacing a phrase always ends, and gives the text with each whole-word occurrence, of any
  -- case, replaced: from left to right, each occurrence passed over whole, all else as it was. The
  -- empty phrase changes nothing.
  pub replace_phrase_ci-Replaced :
      (text from to : Text)
      → (out : Text) × (replace_phrase_ci u text from to ≡ some out)
        × ((from ≡ []) → out ≡ text)
        × ((from ≢ []) → Replaced from to [] text out)
  unfolding replace_phrase_ci
  replace_phrase_ci-Replaced text [] to = (text, refl, λ _. refl, λ ne. absurd (ne refl))
  replace_phrase_ci-Replaced text (p ∷ pat) to =
      let (r, e, replaced) =
        replace_loop-Replaced (suc (length text)) (p ∷ pat) to [] text [] (omega arith)
          (omega arith) in
      (r, e, λ h. cc, λ _. replaced)
