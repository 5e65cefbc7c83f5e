-- ===== src/Pipeline/Phrases.antt =====
-- Whole-word phrases, whatever their case: the helpers of crates/daemon/src/pipeline.rs. The loop of
-- `replace_phrase_ci` runs on fuel; `none` is the model's own, for fuel that ran out.
pub mod Index
pub mod Loop
pub mod Replaced
pub mod Unmatched
use whispy.Base.{
  ℕ, zero, suc, ◌+◌, ◌-◌, Bool, true, false, ◌&&◌, ◌||◌, not, Option, none, some, List, [], ◌∷◌,
  ◌++◌, ltb, ◌==◌, if◌then◌else◌, length, get_elem?, drop, list_eq,
}
use whispy.Text.Chars.{Chars}
use whispy.Text.{Text}

-- `(0..n).any(..)`.
unfoldable pub any_below : ℕ → (ℕ → Bool) → Bool
any_below zero f = false
any_below (suc n) f = any_below n f || f n

module _ (u : Chars) where
  -- `char_eq_ci`.
  unfoldable pub char_eq_ci : ℕ → ℕ → Bool
  char_eq_ci a b = a == b || list_eq (u.char_to_lowercase a) (u.char_to_lowercase b)

  -- `(0..pat.len()).all(..)` on the characters from `i` on.
  unfoldable pub prefix_ci : Text → Text → Bool
  prefix_ci cs [] = true
  prefix_ci [] (p ∷ ps) = false
  prefix_ci (c ∷ cs) (p ∷ ps) = char_eq_ci c p && prefix_ci cs ps

  -- `matches_at`.
  unfoldable pub matches_at : Text → ℕ → Text → Bool
  unfolding prefix_ci
  matches_at chars i pat =
      if ltb (length chars) (i + length pat) then false else prefix_ci (drop i chars) pat

  unfoldable pub alphanumeric_at : Text → ℕ → Bool
  alphanumeric_at chars i = elim (get_elem? chars i) [ none ↦ false | some c ↦ u.is_alphanumeric c ]

  -- `boundary_ok`.
  unfoldable pub boundary_ok : Text → ℕ → ℕ → Bool
  unfolding alphanumeric_at
  boundary_ok chars start len =
      (start == 0 || not (alphanumeric_at chars (start - 1)))
      && not (alphanumeric_at chars (start + len))

  -- The test that `replace_phrase_ci` and `contains_phrase_ci` share.
  unfoldable pub is_match : Text → Text → ℕ → Bool
  unfolding matches_at boundary_ok
  is_match chars pat i = matches_at chars i pat && boundary_ok chars i (length pat)

  -- The character at an index, as a text.
  abbrev pub char_at : Text → ℕ → Text
  char_at chars i = elim (get_elem? chars i) [ none ↦ [] | some c ↦ c ∷ [] ]

  -- The loop of `replace_phrase_ci`.
  unfoldable pub replace_loop : ℕ → Text → Text → Text → ℕ → Text → Option Text
  unfolding is_match
  replace_loop zero chars pat to i out = none
  replace_loop (suc fuel) chars pat to i out =
      let hit = is_match chars pat i in
      elim (ltb i (length chars)) [
        | false ↦ some out
        | true ↦
            replace_loop fuel chars pat to (if hit then i + length pat else i + 1)
              (out ++ (if hit then to else char_at chars i))
      ]

  -- `replace_phrase_ci`.
  unfoldable pub replace_phrase_ci : Text → Text → Text → Option Text
  unfolding replace_loop
  replace_phrase_ci text [] to = some text
  replace_phrase_ci text (p ∷ pat) to = replace_loop (suc (length text)) text (p ∷ pat) to 0 []

  -- `contains_phrase_ci`.
  unfoldable pub contains_phrase_ci : Text → Text → Bool
  unfolding is_match any_below
  contains_phrase_ci text [] = false
  contains_phrase_ci text (p ∷ pat) = any_below (length text) (is_match text (p ∷ pat))
