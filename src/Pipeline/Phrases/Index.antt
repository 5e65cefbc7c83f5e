-- ===== src/Pipeline/Phrases/Index.antt =====
-- The tests at an index of crates/daemon/src/pipeline.rs (`matches_at`, `boundary_ok`), said of the text
-- before the index and the text behind it.
use whispy.Base.{
  ℕ, suc, ◌+◌, ◌-◌, ◌<◌, Bool, true, false, ◌&&◌, ◌||◌, not, [], ◌∷◌, ◌++◌, ◌==◌, ◌≡◌, refl, arith,
  ap, ◌∙◌, sym, length, length-append, get_elem?-append, drop-append, &&-true,
}
use whispy.Pipeline.Phrases.{
  char_eq_ci, prefix_ci, matches_at, alphanumeric_at, boundary_ok, is_match,
}
use whispy.Text.Chars.{Chars}
use whispy.Text.{Text}

module _ (u : Chars) where
  -- The same text, but for case.
  pub data SameCi : Text → Text → Type 0 where
    end : SameCi [] []
    next :
        {c p : ℕ} {cs ps : Text} → char_eq_ci u c p ≡ true → SameCi cs ps → SameCi (c ∷ cs) (p ∷ ps)

  -- A word may start behind the text, or end in front of it.
  unfoldable pub opens : Text → Bool
  opens [] = true
  opens (c ∷ []) = not (u.is_alphanumeric c)
  opens (c ∷ d ∷ s) = opens (d ∷ s)

  unfoldable pub closes : Text → Bool
  closes [] = true
  closes (c ∷ s) = not (u.is_alphanumeric c)

  -- The phrase stands between `before` and `rest`, as a whole word.
  pub record Hit (pat before m rest : Text) : Type 0 where
    pub same : SameCi m pat
    pub opened : opens before ≡ true
    pub closed : closes rest ≡ true

  -- Some hit starts right behind `before`.
  abbrev pub HitAt : Text → Text → Text → Type 0
  HitAt pat before s = (m : Text) × (rest : Text) × (s ≡ m ++ rest) × Hit pat before m rest

  prefix_ci-SameCi :
      (s pat : Text)
      → prefix_ci u s pat ≡ true
      → (m : Text) × (rest : Text) × (s ≡ m ++ rest) × SameCi m pat
  unfolding prefix_ci
  prefix_ci-SameCi s [] h = ([], s, refl, end)
  prefix_ci-SameCi [] (p ∷ ps) h = cc
  prefix_ci-SameCi (c ∷ s) (p ∷ ps) h =
      let (m, rest, e, same) = prefix_ci-SameCi s ps (ground arith) in
      (c ∷ m, rest, ap (◌∷◌ c) e, next (ground arith) same)

  SameCi-prefix_ci :
      {m pat : Text} (rest : Text) → SameCi m pat → prefix_ci u (m ++ rest) pat ≡ true
  unfolding prefix_ci
  SameCi-prefix_ci rest end = refl
  SameCi-prefix_ci rest (next e same) = ground (arith, SameCi-prefix_ci rest same)

  pub length-SameCi : {m pat : Text} → SameCi m pat → length m ≡ length pat
  length-SameCi end = refl
  length-SameCi (next e same) = omega (arith, length-SameCi same)

  prefix_ci_short : (s pat : Text) → length s < length pat → prefix_ci u s pat ≡ false
  unfolding prefix_ci
  prefix_ci_short s [] h = absurd (omega arith)
  prefix_ci_short [] (p ∷ ps) h = refl
  prefix_ci_short (c ∷ s) (p ∷ ps) h = ground (arith, prefix_ci_short s ps)

  -- The tests at an index, said of the text before it and the text behind it.
  matches_at-append :
      (before s pat : Text) → matches_at u (before ++ s) (length before) pat ≡ prefix_ci u s pat
  unfolding matches_at
  matches_at-append before s pat =
      ground (arith, length-append before s, drop-append before s, prefix_ci_short s pat)

  alphanumeric_at-append :
      (before s : Text) (n : ℕ)
      → alphanumeric_at u (before ++ s) (length before + n) ≡ alphanumeric_at u s n
  unfolding alphanumeric_at
  alphanumeric_at-append before s n = rw (alphanumeric_at, get_elem?-append before s n)

  pred-suc : (n : ℕ) → suc n - 1 ≡ n
  pred-suc n = omega arith

  alphanumeric_at-cons :
      (c : ℕ) (s : Text) (n : ℕ)
      → alphanumeric_at u (c ∷ s) (suc (suc n) - 1) ≡ alphanumeric_at u s (suc n - 1)
  unfolding alphanumeric_at
  alphanumeric_at-cons c s n = rw (pred-suc (suc n), pred-suc n) refl

  alphanumeric_at-opens :
      (before s : Text)
      → (length before == 0 || not (alphanumeric_at u (before ++ s) (length before - 1)))
        ≡ opens before
  unfolding alphanumeric_at opens
  alphanumeric_at-opens [] s = refl
  alphanumeric_at-opens (c ∷ []) s = refl
  alphanumeric_at-opens (c ∷ d ∷ b) s =
      ground
        (arith, alphanumeric_at-opens (d ∷ b) s, alphanumeric_at-cons c (d ∷ b ++ s) (length b))

  alphanumeric_at-closes : (s : Text) → not (alphanumeric_at u s 0) ≡ closes s
  unfolding alphanumeric_at closes
  alphanumeric_at-closes [] = refl
  alphanumeric_at-closes (c ∷ s) = refl

  alphanumeric_at-behind :
      (before m rest : Text) (n : ℕ)
      → length m ≡ n
      → not (alphanumeric_at u (before ++ (m ++ rest)) (length before + n)) ≡ closes rest
  alphanumeric_at-behind before m rest n e = rw (alphanumeric_at-append before (m ++ rest) n) (
      ap (λ k. not (alphanumeric_at u (m ++ rest) k)) {y = length m + 0} (omega (arith, e))
      ∙ ap not (alphanumeric_at-append m rest 0)
      ∙ alphanumeric_at-closes rest)

  boundary_ok-append :
      (before m rest : Text) (n : ℕ)
      → length m ≡ n
      → boundary_ok u (before ++ (m ++ rest)) (length before) n ≡ (opens before && closes rest)
  unfolding boundary_ok
  boundary_ok-append before m rest n e =
      rw (alphanumeric_at-opens before (m ++ rest), alphanumeric_at-behind before m rest n e)

  pub is_match-Hit :
      (pat before m rest : Text)
      → Hit pat before m rest
      → is_match u (before ++ (m ++ rest)) pat (length before) ≡ true
  unfolding is_match
  is_match-Hit pat before m rest h = rw (
    matches_at-append before (m ++ rest) pat,
    SameCi-prefix_ci rest h.same,
    boundary_ok-append before m rest (length pat) (length-SameCi h.same),
    h.opened,
    h.closed,
  )

  pub HitAt-is_match :
      (pat before s : Text)
      → is_match u (before ++ s) pat (length before) ≡ true
      → HitAt pat before s
  unfolding is_match
  HitAt-is_match pat before s h =
      let (matched, bounded) = &&-true _ _ h in
      let (m, rest, e, same) =
        prefix_ci-SameCi s pat (sym (matches_at-append before s pat) ∙ matched) in
      let (opened, closed) = &&-true (opens before) (closes rest) (
        sym (boundary_ok-append before m rest (length pat) (length-SameCi same))
        ∙ sym (ap (λ t. boundary_ok u (before ++ t) (length before) (length pat)) e)
        ∙ bounded) in
      (m, rest, e, record { same = same; opened = opened; closed = closed })
