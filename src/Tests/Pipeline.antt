-- ===== src/Tests/Pipeline.antt =====
-- Rewriting concrete transcripts: crates/daemon/src/pipeline.rs.
use whispy.Base.{ℕ, some, none, [], ◌∷◌, ◌≡◌, ◌≢◌, List, refl, ok, Result}
use whispy.Float.{Arith}
use whispy.Llm.{Llm, ChatPost}
use whispy.Pipeline.Phrases.Replaced.{Replaced, replace_phrase_ci-Replaced}
use whispy.Pipeline.Phrases.{replace_phrase_ci, contains_phrase_ci}
use whispy.Pipeline.Process.{Rewritten, Transformed, process_ends_well}
use whispy.Pipeline.Snippets.{Longest, of_length, new_snippets}
use whispy.Pipeline.{
  AppContext, Placeholders, TextPipeline, PipelineConfig, VocabStrategy, off, new, process,
  rewritten, expand_snippets, resolve_placeholders,
}
use whispy.Stt.{Reply}
use whispy.Text.Chars.{ascii}
use whispy.Text.{Text, codes}

abbrev firsts : Arith
firsts = record {
  of_nat = λ n. n;
  add = λ a b. a;
  mul = λ a b. a;
  div = λ a b. a;
  maximum = λ a b. a;
}

abbrev llm : Llm
llm = record { base_url = codes "http://localhost/"; model = codes "m"; api_key = [] }

abbrev config : PipelineConfig
config = record {
  vocabulary = [];
  corrections = (codes "whisper", codes "whispy") ∷ [];
  snippets = (codes "sig", codes "Ada") ∷ (codes "my mail", codes "{{CLIPBOARD}}") ∷ [];
  workflows = record { name = codes "formal"; prompt = codes "Be formal."; apps = [] } ∷ [];
  llm = llm;
}

abbrev pipeline : TextPipeline
pipeline = new config off

abbrev env : Placeholders
env = record { clipboard_text = codes "a@b.c"; date = codes "2024-01-01"; time = codes "10:00" }

abbrev formal : AppContext
formal = record { workflow = some (codes "formal"); window_class = none }

-- An endpoint that answers with one choice.
abbrev answers : ChatPost → Result Text Reply
answers _ = ok (record { status = 200; body = ok [] })

abbrev one_choice : Text → Result Text (List Text)
one_choice _ = ok (codes "Dear all," ∷ [])

replace_phrase_ci-Replaced_example :
    (out : Text) × (replace_phrase_ci ascii (codes "a Sig here") (codes "sig") (codes "Ada")
      ≡ some out)
    × ((codes "sig" ≡ []) → out ≡ codes "a Sig here")
    × ((codes "sig" ≢ []) → Replaced ascii (codes "sig") (codes "Ada") [] (codes "a Sig here") out)
replace_phrase_ci-Replaced_example =
    replace_phrase_ci-Replaced ascii (codes "a Sig here") (codes "sig") (codes "Ada")

new_snippets_example :
    ((n : ℕ) × Longest n (new config off).snippets)
    × ((n : ℕ) → of_length n (new config off).snippets ≡ of_length n config.snippets)
new_snippets_example = new_snippets config off

process_ends_well_example :
    (before : Text) × (out : Text) × (process ascii firsts
        (λ _ _. 0)
        answers
        one_choice
        pipeline
        (codes "hi sig")
        formal
        env
      ≡ some out)
    × Rewritten ascii firsts (λ _ _. 0) pipeline env (codes "hi sig") before
    × Transformed ascii firsts (λ _ _. 0) answers one_choice pipeline formal before out
process_ends_well_example =
    process_ends_well ascii firsts (λ _ _. 0) answers one_choice pipeline (codes "hi sig") formal
      env

-- A whole word only, in any case, and all of them.
whole_words :
    replace_phrase_ci ascii (codes "Sig, signal SIG") (codes "sig") (codes "Ada")
    ≡ some (codes "Ada, signal Ada")
unfolding replace_phrase_ci whispy.Pipeline.Phrases.char_eq_ci
whole_words = refl

-- The workflow's answer takes the transcript's place.
transformed :
    process ascii firsts (λ _ _. 0) answers one_choice pipeline (codes "hi") formal env
    ≡ some (codes "Dear all,")
unfolding process new whispy.Text.is_whitespace
transformed = refl

pasted_in :
    expand_snippets ascii (codes "to my mail") env (new config off).snippets
    ≡ some (codes "to a@b.c")
unfolding expand_snippets new whispy.Pipeline.Phrases.char_eq_ci
pasted_in = refl

-- An unknown placeholder stays.
unknown_kept : resolve_placeholders (codes "{x} {{DATE}}") env ≡ codes "{x} 2024-01-01"
unfolding resolve_placeholders
unknown_kept = refl
