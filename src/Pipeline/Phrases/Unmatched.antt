-- ===== src/Pipeline/Phrases/Unmatched.antt =====
-- The check that saves `expand_snippets` a replacement: crates/daemon/src/pipeline.rs.
use whispy.Base.{
  ℕ, zero, suc, ◌+◌, ◌<◌, Bool, false, ◌||◌, some, [], ◌∷◌, ◌++◌, ◌≡◌, refl, sym, ◌∙◌, ap, arith,
  length, length-append, append-nil, append_assoc, subst, ◌⊎◌, inl, inr,
}
use whispy.Pipeline.Phrases.Loop.{char_at-append, loop_end, loop_miss}
use whispy.Pipeline.Phrases.{
  is_match, replace_loop, replace_phrase_ci, contains_phrase_ci, any_below,
}
use whispy.Text.Chars.{Chars}
use whispy.Text.{Text}

||-false : (a b : Bool) → (a || b) ≡ false → (a ≡ false) × (b ≡ false)
||-false a b h = ground arith

lt-or-eq : (i n : ℕ) → i < suc n → (i < n) ⊎ (i ≡ n)
lt-or-eq i n h = ground arith

any_below-false : (n : ℕ) (f : ℕ → Bool) → any_below n f ≡ false → (i : ℕ) → i < n → f i ≡ false
unfolding any_below
any_below-false zero f h i lt = absurd (omega arith)
any_below-false (suc n) f h i lt =
    let (early, here) = ||-false (any_below n f) (f n) h in
    elim (lt-or-eq i n lt) [ inl less ↦ any_below-false n f early i less | inr e ↦ ap f e ∙ here ]

module _ (u : Chars) where
  replace_loop_unmatched :
      (fuel : ℕ) (pat to before s out : Text)
      → length s < fuel
      → ((i : ℕ) → i < length (before ++ s) → is_match u (before ++ s) pat i ≡ false)
      → replace_loop u fuel (before ++ s) pat to (length before) out ≡ some (out ++ s)
  replace_loop_unmatched zero pat to before s out h clear = absurd (omega arith)
  replace_loop_unmatched (suc fuel) pat to before [] out h clear =
      loop_end u fuel (before ++ []) pat to out (length before)
        (ground (arith, length-append before []))
      ∙ ap some (sym (append-nil out))
  replace_loop_unmatched (suc fuel) pat to before (c ∷ s) out h clear =
      let chars = before ++ (c ∷ s) in
      let split = append_assoc before (c ∷ []) s in
      let next = length before + 1 in
      loop_miss u fuel chars pat to out (length before)
        (ground (arith, length-append before (c ∷ s)))
        (clear (length before) (omega (arith, length-append before (c ∷ s))))
      ∙ ap (λ t. replace_loop u fuel chars pat to next (out ++ t)) (char_at-append u before s c)
      ∙ ap (λ t. replace_loop u fuel t pat to next (out ++ (c ∷ []))) (sym split)
      ∙ ap (λ k. replace_loop u fuel ((before ++ (c ∷ [])) ++ s) pat to k (out ++ (c ∷ [])))
          {y = length (before ++ (c ∷ []))} (omega (arith, length-append before (c ∷ [])))
      ∙ replace_loop_unmatched fuel pat to (before ++ (c ∷ [])) s (out ++ (c ∷ [])) (omega arith)
          (subst (λ t. (i : ℕ) → i < length t → is_match u t pat i ≡ false) (sym split) clear)
      ∙ ap some (append_assoc out (c ∷ []) s)

  -- Where `contains_phrase_ci` says no, replacing the phrase changes nothing.
  pub replace_phrase_ci_unmatched :
      (text from to : Text)
      → contains_phrase_ci u text from ≡ false
      → replace_phrase_ci u text from to ≡ some text
  unfolding replace_phrase_ci contains_phrase_ci
  replace_phrase_ci_unmatched text [] to h = refl
  replace_phrase_ci_unmatched text (p ∷ pat) to h =
      replace_loop_unmatched (suc (length text)) (p ∷ pat) to [] text [] (omega arith)
        (any_below-false (length text) (is_match u text (p ∷ pat)) h)
