-- ===== src/Pipeline/Process.antt =====
-- What `process` of crates/daemon/src/pipeline.rs comes to.
use whispy.Base.{
  ℕ, true, false, Option, none, some, List, [], ◌∷◌, ◌≡◌, ◌≢◌, inl, inr, refl, ◌∙◌, Bool-cases,
  Result, ok, err,
}
use whispy.Float.{Arith}
use whispy.Llm.{LlmError, ChatPost, transform}
use whispy.Pipeline.Phrases.Replaced.{Replaced, replace_phrase_ci-Replaced}
use whispy.Pipeline.Snippets.{replace_all, expand_snippets_plain}
use whispy.Pipeline.{
  AppContext, Placeholders, TextPipeline, Workflow, apply_corrections, expand_snippets,
  resolve_placeholders, pick_workflow, run_workflow, unless_empty, rewritten, process,
}
use whispy.Stt.{Reply}
use whispy.Text.Chars.{Chars}
use whispy.Text.Words.{is_empty, join, split_whitespace}
use whispy.Text.{Text, codes, trim}
use whispy.Vocab.Tokens.{keys_from}
use whispy.Vocab.Windows.{Corrected, apply-Corrected}
use whispy.Vocab.{apply, default_threshold}

module _ (u : Chars) where
  -- Every phrase of the list in turn replaced by its text, whole words only and in any case.
  pub data ReplacedAll : List (Text × Text) → Text → Text → Type 0 where
    end : {text : Text} → ReplacedAll [] text text
    next :
        {phrase to text text1 out : Text} {rest : List (Text × Text)}
        → ((phrase ≡ []) → text1 ≡ text)
        → ((phrase ≢ []) → Replaced u phrase to [] text text1)
        → ReplacedAll rest text1 out
        → ReplacedAll ((phrase, to) ∷ rest) text out

  -- The snippets with their placeholders filled in.
  abbrev pub resolved : Placeholders → List (Text × Text) → List (Text × Text)
  resolved env [] = []
  resolved env ((trigger, replacement) ∷ ss) =
      (trigger, resolve_placeholders replacement env) ∷ resolved env ss

  apply_corrections-ReplacedAll :
      (text : Text) (cs : List (Text × Text))
      → (out : Text) × (apply_corrections u text cs ≡ some out) × ReplacedAll cs text out
  unfolding apply_corrections
  apply_corrections-ReplacedAll text [] = (text, refl, end)
  apply_corrections-ReplacedAll text ((before, after) ∷ cs) =
      let (acc, e, blank, replaced) = replace_phrase_ci-Replaced u text before after in
      let (out, e', rest) = apply_corrections-ReplacedAll acc cs in
      (out, rw (e, apply_corrections) e', next blank replaced rest)

  replace_all-ReplacedAll :
      (text : Text) (env : Placeholders) (ss : List (Text × Text))
      → (out : Text) × (replace_all u text env ss ≡ some out)
        × ReplacedAll (resolved env ss) text out
  unfolding replace_all
  replace_all-ReplacedAll text env [] = (text, refl, end)
  replace_all-ReplacedAll text env ((trigger, replacement) ∷ ss) =
      let (acc, e, blank, replaced) =
        replace_phrase_ci-Replaced u text trigger (resolve_placeholders replacement env) in
      let (out, e', rest) = replace_all-ReplacedAll acc env ss in
      (out, rw (e, replace_all) e', next blank replaced rest)

  expand_snippets-ReplacedAll :
      (text : Text) (env : Placeholders) (ss : List (Text × Text))
      → (out : Text) × (expand_snippets u text env ss ≡ some out)
        × ReplacedAll (resolved env ss) text out
  expand_snippets-ReplacedAll text env ss =
      let (out, e, rest) = replace_all-ReplacedAll text env ss in
      (out, expand_snippets_plain u text env ss ∙ e, rest)

module _ (u : Chars) (f : Arith) (levenshtein : Text → Text → ℕ) where
  -- The text, or its words corrected, where there are custom words.
  abbrev pub VocabularyApplied : List Text → Text → Text → Type 0
  VocabularyApplied words text out =
      ((words ≡ []) → out ≡ text)
      × ((words ≢ [])
          → (pieces : List Text) × (out ≡ join (codes " ") pieces)
            × Corrected u f levenshtein words default_threshold (keys_from u 0 words)
                (split_whitespace text) pieces)

  apply-VocabularyApplied :
      (text : Text) (words : List Text)
      → (out : Text) × (apply u f levenshtein text words default_threshold ≡ some out)
        × VocabularyApplied words text out
  apply-VocabularyApplied text [] = (
    text,
    (apply-Corrected u f levenshtein [] default_threshold text).0 refl,
    (λ _. refl, λ ne. absurd (ne refl)),
  )
  apply-VocabularyApplied text (w ∷ ws) =
      let (pieces, e, c) =
        (apply-Corrected u f levenshtein (w ∷ ws) default_threshold text).1 (λ h. cc) in
      (join (codes " ") pieces, e, (λ h. cc, λ _. (pieces, refl, c)))

  -- Vocabulary, corrections and snippets, in this order.
  pub record Rewritten (p : TextPipeline) (env : Placeholders) (text out : Text) : Type 0 where
    pub text1 : Text
    pub text2 : Text
    pub vocabulary : VocabularyApplied p.vocabulary text text1
    pub corrections : ReplacedAll u p.corrections text1 text2
    pub snippets : ReplacedAll u (resolved u env p.snippets) text2 out

module _ (u : Chars) (f : Arith) (levenshtein : Text → Text → ℕ)
    (send : ChatPost → Result Text Reply) (from_str : Text → Result Text (List Text)) where
  rewritten-Rewritten :
      (p : TextPipeline) (text : Text) (env : Placeholders)
      → (out : Text) × (rewritten u f levenshtein send from_str p text env ≡ some out)
        × Rewritten u f levenshtein p env text out
  unfolding rewritten
  rewritten-Rewritten p text env =
      let (text1, e1, v) = apply-VocabularyApplied u f levenshtein text p.vocabulary in
      let (text2, e2, c) = apply_corrections-ReplacedAll u text1 p.corrections in
      let (out, e3, s) = expand_snippets-ReplacedAll u text2 env p.snippets in
      (
        out,
        rw (e1, rewritten) (rw e2 e3),
        record { text1 = text1; text2 = text2; vocabulary = v; corrections = c; snippets = s },
      )

  -- What the workflow makes of a text: nothing, if none is picked, its prompt is blank, or the
  -- endpoint fails or answers with nothing; else the answer.
  pub data Transformed (p : TextPipeline) (ctx : AppContext) (text out : Text) : Type 0 where
    unpicked :
        pick_workflow p.workflows ctx.workflow ctx.window_class ≡ none
        → out ≡ text
        → Transformed p ctx text out
    unprompted :
        (wf : Workflow)
        → pick_workflow p.workflows ctx.workflow ctx.window_class ≡ some wf
        → is_empty (trim wf.prompt) ≡ true
        → out ≡ text
        → Transformed p ctx text out
    failed :
        (wf : Workflow) (e : LlmError)
        → pick_workflow p.workflows ctx.workflow ctx.window_class ≡ some wf
        → is_empty (trim wf.prompt) ≡ false
        → transform send from_str p.llm wf.prompt text ≡ err e
        → out ≡ text
        → Transformed p ctx text out
    unanswered :
        (wf : Workflow)
        → pick_workflow p.workflows ctx.workflow ctx.window_class ≡ some wf
        → is_empty (trim wf.prompt) ≡ false
        → transform send from_str p.llm wf.prompt text ≡ ok []
        → out ≡ text
        → Transformed p ctx text out
    answered :
        (wf : Workflow)
        → pick_workflow p.workflows ctx.workflow ctx.window_class ≡ some wf
        → is_empty (trim wf.prompt) ≡ false
        → transform send from_str p.llm wf.prompt text ≡ ok out
        → out ≢ []
        → Transformed p ctx text out

  run_workflow_answer :
      (p : TextPipeline) (ctx : AppContext) (text : Text) (wf : Workflow)
      (answer : Result LlmError Text)
      → pick_workflow p.workflows ctx.workflow ctx.window_class ≡ some wf
      → is_empty (trim wf.prompt) ≡ false
      → transform send from_str p.llm wf.prompt text ≡ answer
      → Transformed p ctx text (unless_empty u f levenshtein send from_str text answer)
  run_workflow_answer p ctx text wf (err e) picked prompted answer =
      failed wf e picked prompted answer refl
  run_workflow_answer p ctx text wf (ok []) picked prompted answer =
      unanswered wf picked prompted answer refl
  run_workflow_answer p ctx text wf (ok (c ∷ cs)) picked prompted answer =
      answered wf picked prompted answer (λ h. cc)

  run_workflow_cases :
      (p : TextPipeline) (ctx : AppContext) (text : Text) (wf : Option Workflow)
      → pick_workflow p.workflows ctx.workflow ctx.window_class ≡ wf
      → Transformed p ctx text (run_workflow u f levenshtein send from_str p.llm wf text)
  unfolding run_workflow
  run_workflow_cases p ctx text none picked = unpicked picked refl
  run_workflow_cases p ctx text (some wf) picked = elim (Bool-cases (is_empty (trim wf.prompt))) [
    | inl blank ↦ rw blank (unprompted wf picked blank refl)
    | inr prompted ↦ rw prompted (run_workflow_answer p ctx text wf _ picked prompted refl)
  ]

  -- Processing never fails: every loop ends. An accepted transcript is first rewritten: the custom
  -- words correct it, if there are any; then each correction, and then each snippet with its
  -- placeholders filled in, replaces its phrase wherever that stands as a whole word. Of what comes
  -- out, the workflow that was picked makes its endpoint's answer, where its prompt is not blank and
  -- the endpoint answers with a text that is not empty; in all other cases it stays as it is.
  pub process_ends_well :
      (p : TextPipeline) (text : Text) (ctx : AppContext) (env : Placeholders)
      → (before : Text) × (out : Text) × (process u f levenshtein send from_str p text ctx env
          ≡ some out)
        × Rewritten u f levenshtein p env text before
        × Transformed p ctx before out
  unfolding process
  process_ends_well p text ctx env =
      let (before, e, r) = rewritten-Rewritten p text env in
      (before, _, rw (e, process) refl, r, run_workflow_cases p ctx before _ refl)
