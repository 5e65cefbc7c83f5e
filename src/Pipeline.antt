-- ===== src/Pipeline.antt =====
-- The text pipeline behind the filter: crates/daemon/src/pipeline.rs. The desktop clipboard and
-- `date` answer through `Placeholders`. `none` is the model's own, for a loop out of fuel.
pub mod Phrases
pub mod Snippets
pub mod Process
use Phrases.{replace_phrase_ci, contains_phrase_ci}
use whispy.Base.{
  ℕ, zero, suc, ◌-◌, Bool, true, false, not, Option, none, some, List, [], ◌∷◌, ◌++◌, any, length,
  leb, starts_with, if◌then◌else◌, Result, ok, err,
}
use whispy.Float.{Arith}
use whispy.Llm.{Llm, LlmError, ChatPost, transform}
use whispy.Multipart.{eq_ignore_ascii_case}
use whispy.Stt.{Reply}
use whispy.Text.Chars.{Chars}
use whispy.Text.Words.{is_empty}
use whispy.Text.{Text, codes, trim}
use whispy.Vocab.{apply, default_threshold}

-- `AppContext`.
pub record AppContext : Type 0 where
  pub workflow : Option Text
  pub window_class : Option Text

-- What a `PlaceholderEnv` answers.
pub record Placeholders : Type 0 where
  pub clipboard_text : Text
  pub date : Text
  pub time : Text

-- `config::Workflow`.
pub record Workflow : Type 0 where
  pub name : Text
  pub prompt : Text
  pub apps : List Text

-- `VocabStrategy` of crates/daemon/src/engine.rs.
pub data VocabStrategy : Type 0 where
  off correct : VocabStrategy
  prompt : Text → VocabStrategy

-- What `TextPipeline::new` reads of the config. The maps are `BTreeMap`s: their entries in key order.
pub record PipelineConfig : Type 0 where
  pub vocabulary : List Text
  pub corrections : List (Text × Text)
  pub snippets : List (Text × Text)
  pub workflows : List Workflow
  pub llm : Llm

-- `TextPipeline`.
pub record TextPipeline : Type 0 where
  pub vocabulary : List Text
  pub corrections : List (Text × Text)
  pub snippets : List (Text × Text)
  pub workflows : List Workflow
  pub llm : Llm

-- `sort_by_key` with `Reverse` of the trigger's length, which keeps the order of equals.
unfoldable pub insert_snippet : Text × Text → List (Text × Text) → List (Text × Text)
insert_snippet x [] = x ∷ []
insert_snippet x (y ∷ ys) =
    let rest = insert_snippet x ys in if leb (length y.0) (length x.0) then x ∷ y ∷ ys else y ∷ rest

unfoldable pub sort_snippets : List (Text × Text) → List (Text × Text)
unfolding insert_snippet
sort_snippets [] = []
sort_snippets (x ∷ xs) = insert_snippet x (sort_snippets xs)

abbrev pub kept_vocabulary : VocabStrategy → List Text → List Text
kept_vocabulary correct words = words
kept_vocabulary _ words = []

-- `TextPipeline::new`.
unfoldable pub new : PipelineConfig → VocabStrategy → TextPipeline
unfolding sort_snippets
new cfg vocab = record {
  vocabulary = kept_vocabulary vocab cfg.vocabulary;
  corrections = cfg.corrections;
  snippets = sort_snippets cfg.snippets;
  workflows = cfg.workflows;
  llm = cfg.llm;
}

abbrev pub find_workflow : (Workflow → Bool) → List Workflow → Option Workflow
find_workflow p [] = none
find_workflow p (w ∷ ws) = if p w then some w else find_workflow p ws

-- `pick_workflow`.
unfoldable pub pick_workflow : List Workflow → Option Text → Option Text → Option Workflow
pick_workflow workflows (some name) class =
    find_workflow (λ w. eq_ignore_ascii_case w.name name) workflows
pick_workflow workflows none (some class) =
    find_workflow (λ w. any (λ a. eq_ignore_ascii_case a class) w.apps) workflows
pick_workflow workflows none none = none

-- `str::contains`.
unfoldable pub contains : Text → Text → Bool
contains [] pat = is_empty pat
contains (c ∷ s) pat = if starts_with (c ∷ s) pat then true else contains s pat

-- `str::replace` of a pattern that is not empty: `skip` characters belong to the last match.
unfoldable pub replace_from : Text → Text → ℕ → Text → Text
replace_from pat to skip [] = []
replace_from pat to (suc skip) (c ∷ s) = replace_from pat to skip s
replace_from pat to zero (c ∷ s) =
    let hit = starts_with (c ∷ s) pat in
    let rest = replace_from pat to (if hit then length pat - 1 else 0) s in
    if hit then to ++ rest else c ∷ rest

-- One step of `resolve_placeholders`.
unfoldable pub resolve : Text → Text → Text → Text
unfolding contains replace_from
resolve pat value s = if contains s pat then replace_from pat value 0 s else s

-- `resolve_placeholders`.
unfoldable pub resolve_placeholders : Text → Placeholders → Text
unfolding resolve
resolve_placeholders s env =
    resolve (codes "{{CLIPBOARD}}") env.clipboard_text
      (resolve (codes "{{TIME}}") env.time (resolve (codes "{{DATE}}") env.date s))

module _ (u : Chars) where
  -- `apply_corrections`.
  unfoldable pub apply_corrections : Text → List (Text × Text) → Option Text
  unfolding replace_phrase_ci
  apply_corrections text [] = some text
  apply_corrections text ((before, after) ∷ cs) = elim (replace_phrase_ci u text before after) [
    | none ↦ none
    | some acc ↦ apply_corrections acc cs
  ]

  -- `expand_snippets`.
  unfoldable pub expand_snippets : Text → Placeholders → List (Text × Text) → Option Text
  unfolding contains_phrase_ci resolve_placeholders replace_phrase_ci
  expand_snippets acc env [] = some acc
  expand_snippets acc env ((trigger, replacement) ∷ ss) =
      elim (if not (contains_phrase_ci u acc trigger)
        then some acc
        else replace_phrase_ci u acc trigger (resolve_placeholders replacement env)) [
          | none ↦ none
          | some next ↦ expand_snippets next env ss
        ]

module _ (u : Chars) (f : Arith) (levenshtein : Text → Text → ℕ)
    (send : ChatPost → Result Text Reply) (from_str : Text → Result Text (List Text)) where
  abbrev pub unless_empty : Text → Result LlmError Text → Text
  unless_empty text (err e) = text
  unless_empty text (ok out) = if not (is_empty out) then out else text

  -- The last step of `process`.
  unfoldable pub run_workflow : Llm → Option Workflow → Text → Text
  unfolding transform
  run_workflow llm none text = text
  run_workflow llm (some wf) text =
      if not (is_empty (trim wf.prompt))
      then unless_empty text (transform send from_str llm wf.prompt text)
      else text

  -- The first three steps of `process`.
  unfoldable pub rewritten : TextPipeline → Text → Placeholders → Option Text
  unfolding apply apply_corrections expand_snippets
  rewritten p text env = elim (apply u f levenshtein text p.vocabulary default_threshold) [
    | none ↦ none
    | some text1 ↦ elim (apply_corrections u text1 p.corrections) [
      | none ↦ none
      | some text2 ↦ expand_snippets u text2 env p.snippets
    ]
  ]

  -- `process`.
  unfoldable pub process : TextPipeline → Text → AppContext → Placeholders → Option Text
  unfolding rewritten pick_workflow run_workflow
  process p text ctx env = elim (rewritten p text env) [
    | none ↦ none
    | some text3 ↦
        some (run_workflow p.llm (pick_workflow p.workflows ctx.workflow ctx.window_class) text3)
  ]
