-- ===== src/Llm.antt =====
-- The chat client of the AI workflows: `transform` of crates/daemon/src/llm.rs. The HTTP agent and
-- `serde_json` answer through arguments.
use whispy.Base.{
  ◌&&◌, not, Option, none, some, List, [], ◌∷◌, ◌++◌, leb, if◌then◌else◌, Result, ok, err, ◌>>=◌,
  ok_or,
}
use whispy.Stt.{Reply, unwrap_or_default}
use whispy.Text.Decimal.{decimal}
use whispy.Text.Split.{trim_end_matches}
use whispy.Text.Words.{is_empty}
use whispy.Text.{Text, codes, trim}

-- `config::Llm`, less the timeout.
pub record Llm : Type 0 where
  pub base_url : Text
  pub model : Text
  pub api_key : Text

pub data LlmError : Type 0 where
  disabled : LlmError
  http parse : Text → LlmError

-- What is posted: the URL, the `Authorization` header, and what the JSON body is made of.
pub record ChatPost : Type 0 where
  pub url : Text
  pub authorization : Option Text
  pub model : Text
  pub system_prompt : Text
  pub user_text : Text

-- The request of `transform`.
unfoldable pub chat_post : Llm → Text → Text → ChatPost
chat_post cfg system_prompt user_text = record {
  url = trim_end_matches b'/' cfg.base_url ++ codes "/chat/completions";
  authorization =
      if is_empty (trim cfg.api_key) then none else some (codes "Bearer " ++ cfg.api_key);
  model = cfg.model;
  system_prompt = system_prompt;
  user_text = user_text;
}

abbrev pub map_err : {A : Type 0} → (Text → LlmError) → Result Text A → Result LlmError A
map_err f (ok x) = ok x
map_err f (err e) = err (f e)

abbrev pub first : List Text → Option Text
first [] = none
first (c ∷ cs) = some c

-- `from_str` gives the contents of the choices.
module _ (send : ChatPost → Result Text Reply) (from_str : Text → Result Text (List Text)) where
  -- What `transform` makes of a reply.
  unfoldable pub read_chat : Reply → Result LlmError Text
  read_chat resp =
      if not (leb 200 resp.status && leb resp.status 299)
      then err (
          http (
            codes "status "
            ++ (decimal resp.status ++ (codes ": " ++ unwrap_or_default resp.body))))
      else do
        body ← map_err http resp.body
        choices ← map_err parse (from_str body)
        content ← ok_or (first choices) (parse (codes "no choices in response"))
        ok (trim content)

  -- `transform`.
  unfoldable pub transform : Llm → Text → Text → Result LlmError Text
  unfolding chat_post read_chat
  transform cfg system_prompt user_text =
      if is_empty (trim cfg.model)
      then err disabled
      else do resp ← map_err http (send (chat_post cfg system_prompt user_text)); read_chat resp
