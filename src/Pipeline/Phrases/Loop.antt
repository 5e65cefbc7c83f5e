-- ===== src/Pipeline/Phrases/Loop.antt =====
-- One round of the loop of `replace_phrase_ci`, crates/daemon/src/pipeline.rs.
use whispy.Base.{ℕ, suc, ◌+◌, true, false, some, [], ◌∷◌, ◌++◌, ltb, ◌≡◌, refl, arith, length}
use whispy.Pipeline.Phrases.{is_match, char_at, replace_loop}
use whispy.Text.Chars.{Chars}
use whispy.Text.{Text}

module _ (u : Chars) where
  pub char_at-append :
      (before s : Text) (c : ℕ) → char_at u (before ++ (c ∷ s)) (length before) ≡ c ∷ []
  char_at-append [] s c = refl
  char_at-append (b ∷ before) s c = char_at-append before s c

  pub loop_end :
      (fuel : ℕ) (chars pat to out : Text) (i : ℕ)
      → ltb i (length chars) ≡ false
      → replace_loop u (suc fuel) chars pat to i out ≡ some out
  unfolding replace_loop
  loop_end fuel chars pat to out i h = ground arith

  pub loop_hit :
      (fuel : ℕ) (chars pat to out : Text) (i : ℕ)
      → ltb i (length chars) ≡ true
      → is_match u chars pat i ≡ true
      → replace_loop u (suc fuel) chars pat to i out
        ≡ replace_loop u fuel chars pat to (i + length pat) (out ++ to)
  unfolding replace_loop
  loop_hit fuel chars pat to out i h m = ground arith

  pub loop_miss :
      (fuel : ℕ) (chars pat to out : Text) (i : ℕ)
      → ltb i (length chars) ≡ true
      → is_match u chars pat i ≡ false
      → replace_loop u (suc fuel) chars pat to i out
        ≡ replace_loop u fuel chars pat to (i + 1) (out ++ char_at u chars i)
  unfolding replace_loop
  loop_miss fuel chars pat to out i h m = ground arith
