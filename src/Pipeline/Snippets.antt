-- ===== src/Pipeline/Snippets.antt =====
-- The snippets of crates/daemon/src/pipeline.rs: their order, and their expansion.
use whispy.Base.{
  ℕ, ◌≤◌, not, Option, none, some, List, [], ◌∷◌, ◌≡◌, inl, inr, refl, ◌∙◌, sym, arith, length, leb,
  ◌==◌, if◌then◌else◌, Bool-cases, Option-cases,
}
use whispy.Pipeline.Phrases.Unmatched.{replace_phrase_ci_unmatched}
use whispy.Pipeline.Phrases.{replace_phrase_ci, contains_phrase_ci}
use whispy.Pipeline.{
  Placeholders, PipelineConfig, VocabStrategy, new, insert_snippet, sort_snippets, expand_snippets,
  resolve_placeholders,
}
use whispy.Text.Chars.{Chars}
use whispy.Text.{Text}

abbrev trigger_length : Text × Text → ℕ
trigger_length x = length x.0

-- No trigger is longer than one before it.
pub data Longest : ℕ → List (Text × Text) → Type 0 where
  end : {n : ℕ} → Longest n []
  next :
      {n : ℕ} {x : Text × Text} {xs : List (Text × Text)}
      → length x.0 ≤ n
      → Longest (length x.0) xs
      → Longest n (x ∷ xs)

-- The snippets whose trigger has the length, in their order.
unfoldable pub of_length : ℕ → List (Text × Text) → List (Text × Text)
of_length n [] = []
of_length n (x ∷ xs) = if length x.0 == n then x ∷ of_length n xs else of_length n xs

longer : {n m : ℕ} {xs : List (Text × Text)} → n ≤ m → Longest n xs → Longest m xs
longer le end = end
longer le (next h hs) = next (omega arith) hs

insert_snippet-Longest :
    (n : ℕ) (x : Text × Text) (xs : List (Text × Text))
    → length x.0 ≤ n
    → Longest n xs
    → Longest n (insert_snippet x xs)
unfolding insert_snippet
insert_snippet-Longest n x [] le end = next le end
insert_snippet-Longest n x (y ∷ ys) le (next h hs) =
    elim (Bool-cases (leb (length y.0) (length x.0))) [
      | inl first ↦ rw first (next le (next (ground arith) hs))
      | inr later ↦ rw later (next h (insert_snippet-Longest (length y.0) x ys (ground arith) hs))
    ]

Longest-of : (xs : List (Text × Text)) → (n : ℕ) × Longest n (sort_snippets xs)
unfolding sort_snippets
Longest-of [] = (0, end)
Longest-of (x ∷ xs) =
    let (n, h) = Longest-of xs in
    elim (Bool-cases (leb (length x.0) n)) [
      | inl small ↦ (n, insert_snippet-Longest n x (sort_snippets xs) (ground arith) h)
      | inr big ↦ (
        length x.0,
        insert_snippet-Longest (length x.0) x (sort_snippets xs) (omega arith)
            (longer (ground arith) h),
      )
    ]

of_length-insert_snippet :
    (n : ℕ) (x : Text × Text) (xs : List (Text × Text))
    → of_length n (insert_snippet x xs) ≡ of_length n (x ∷ xs)
unfolding of_length insert_snippet
of_length-insert_snippet n x [] = refl
of_length-insert_snippet n x (y ∷ ys) = ground (arith, of_length-insert_snippet n x ys)

of_length-cons :
    (n : ℕ) (x : Text × Text) (xs ys : List (Text × Text))
    → of_length n xs ≡ of_length n ys
    → of_length n (x ∷ xs) ≡ of_length n (x ∷ ys)
unfolding of_length
of_length-cons n x xs ys e = ground arith

of_length-sort_snippets :
    (n : ℕ) (xs : List (Text × Text)) → of_length n (sort_snippets xs) ≡ of_length n xs
unfolding sort_snippets
of_length-sort_snippets n [] = refl
of_length-sort_snippets n (x ∷ xs) =
    of_length-insert_snippet n x (sort_snippets xs)
    ∙ of_length-cons n x (sort_snippets xs) xs (of_length-sort_snippets n xs)

-- The pipeline keeps every snippet, longest trigger first, and those of one length in key order.
pub new_snippets :
    (cfg : PipelineConfig) (vocab : VocabStrategy)
    → ((n : ℕ) × Longest n (new cfg vocab).snippets)
      × ((n : ℕ) → of_length n (new cfg vocab).snippets ≡ of_length n cfg.snippets)
unfolding new
new_snippets cfg vocab = (Longest-of cfg.snippets, λ n. of_length-sort_snippets n cfg.snippets)

module _ (u : Chars) where
  -- Each snippet replaced, whether its trigger is there or not.
  unfoldable pub replace_all : Text → Placeholders → List (Text × Text) → Option Text
  replace_all acc env [] = some acc
  replace_all acc env ((trigger, replacement) ∷ ss) =
      elim (replace_phrase_ci u acc trigger (resolve_placeholders replacement env)) [
        | none ↦ none
        | some acc1 ↦ replace_all acc1 env ss
      ]

  step_same :
      (acc trigger value : Text)
      → (if not (contains_phrase_ci u acc trigger)
          then some acc
          else replace_phrase_ci u acc trigger value)
        ≡ replace_phrase_ci u acc trigger value
  step_same acc trigger value = elim (Bool-cases (contains_phrase_ci u acc trigger)) [
    | inl found ↦ rw found refl
    | inr absent ↦ rw absent (sym (replace_phrase_ci_unmatched u acc trigger value absent))
  ]

  -- Looking for the trigger first saves work, and changes nothing: the expansion is that of
  -- replacing every snippet in turn.
  pub expand_snippets_plain :
      (acc : Text) (env : Placeholders) (ss : List (Text × Text))
      → expand_snippets u acc env ss ≡ replace_all acc env ss
  unfolding expand_snippets replace_all
  expand_snippets_plain acc env [] = refl
  expand_snippets_plain acc env ((trigger, replacement) ∷ ss) =
      rw (expand_snippets, step_same acc trigger (resolve_placeholders replacement env))
        (elim (Option-cases
          (replace_phrase_ci u acc trigger (resolve_placeholders replacement env))) [
            | inl e ↦ rw (e, replace_all) refl
            | inr (acc1, e) ↦ rw (e, replace_all) (expand_snippets_plain acc1 env ss)
          ])
