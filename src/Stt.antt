-- ===== src/Stt.antt =====
-- The client of the STT server: crates/daemon/src/stt.rs. The HTTP agent, `hound` and `serde_json`
-- answer through arguments.
pub mod Tidy
pub mod Wire
use whispy.Base.{
  ℕ, Bool, true, false, ◌&&◌, not, Option, none, some, List, [], ◌∷◌, ◌++◌, any, starts_with,
  length, leb, ◌==◌, if◌then◌else◌, Result, ok, err, ◌>>=◌, map,
}
use whispy.Float.{F32, Arith}
use whispy.Inference.{Request, Segment, Response, build_multipart, daemon_boundary, path}
use whispy.Text.Decimal.{decimal}
use whispy.Text.Encode.{as_bytes}
use whispy.Text.Words.{split_whitespace, join, is_empty}
use whispy.Text.{Text, Bytes, codes, trim}

-- 16 kHz mono samples, as bit patterns.
abbrev pub Samples : Type 0
Samples = List ℕ

-- `config::Stt`, as far as the client reads it.
pub record SttConfig : Type 0 where
  pub host : Text
  pub port : ℕ
  pub language : Text

-- `SttClient`, less its HTTP agent.
pub record SttClient : Type 0 where
  pub base : Text
  pub language : Text
  pub prompt : Option Text

pub record Transcription : Type 0 where
  pub text : Text
  pub avg_logprob : F32
  pub no_speech_prob : F32
  pub language : Option Text

-- `SttError`, and its `Display`.
pub data SttError : Type 0 where
  http parse audio : Text → SttError

unfoldable pub show_error : SttError → Text
show_error (http message) = codes "whisper-server HTTP error: " ++ message
show_error (parse message) = codes "failed to parse whisper-server response: " ++ message
show_error (audio message) = codes "failed to encode audio: " ++ message

-- `base_url`.
unfoldable pub base_url : Text → ℕ → Text
base_url host port =
    if any (λ c. c == b':') host && not (starts_with host (codes "["))
    then codes "http://[" ++ (host ++ (codes "]:" ++ decimal port))
    else codes "http://" ++ (host ++ (codes ":" ++ decimal port))

-- `prompt.filter(..)` of `SttClient::new`.
unfoldable pub kept_prompt : Option Text → Option Text
kept_prompt none = none
kept_prompt (some p) = if is_empty (trim p) then none else some p

-- `SttClient::new`.
unfoldable pub new : SttConfig → Option Text → SttClient
unfolding base_url kept_prompt
new cfg prompt = record {
  base = base_url cfg.host cfg.port;
  language = cfg.language;
  prompt = kept_prompt prompt;
}

-- `normalize_whitespace`.
unfoldable pub normalize_whitespace : Text → Text
normalize_whitespace s = join (32 ∷ []) (split_whitespace s)

-- The sum and the fold of `aggregate`.
unfoldable pub sum_from : Arith → F32 → List F32 → F32
sum_from f acc [] = acc
sum_from f acc (x ∷ xs) = sum_from f (f.add acc x) xs

unfoldable pub max_from : Arith → F32 → List F32 → F32
max_from f acc [] = acc
max_from f acc (x ∷ xs) = max_from f (f.maximum acc x) xs

unfoldable pub mean_logprob : Arith → List Segment → F32
unfolding sum_from
mean_logprob f [] = 0
mean_logprob f (s ∷ ss) =
    f.div (sum_from f 0 (map (λ x. x.avg_logprob) (s ∷ ss))) (f.of_nat (length (s ∷ ss)))

-- `aggregate`.
unfoldable pub aggregate : Arith → Response → Transcription
unfolding mean_logprob max_from normalize_whitespace
aggregate f resp = record {
  text = normalize_whitespace resp.text;
  avg_logprob = mean_logprob f resp.segments;
  no_speech_prob = max_from f 0 (map (λ x. x.no_speech_prob) resp.segments);
  language = resp.detected_language;
}

-- What is posted.
pub record Post : Type 0 where
  pub url : Text
  pub content_type : Text
  pub body : Bytes

-- What comes back: an HTTP status, and the body if it can be read.
pub record Reply : Type 0 where
  pub status : ℕ
  pub body : Result Text Text

abbrev pub encode_optional : Option Text → Option Bytes
encode_optional none = none
encode_optional (some s) = some (as_bytes s)

-- The request that `transcribe` builds for a clip encoded as WAV.
unfoldable pub post : SttClient → Bytes → Post
post client wav = record {
  url = client.base ++ path;
  content_type = codes "multipart/form-data; boundary=" ++ daemon_boundary;
  body =
      build_multipart daemon_boundary
        (record { language = as_bytes client.language; prompt = encode_optional client.prompt })
        wav;
}

-- `map_err`.
abbrev pub map_err : {A : Type 0} → (Text → SttError) → Result Text A → Result SttError A
map_err f (ok x) = ok x
map_err f (err e) = err (f e)

abbrev pub unwrap_or_default : Result Text Text → Text
unwrap_or_default (ok s) = s
unwrap_or_default (err _) = []

module _ (f : Arith) (encode_wav : Samples → Result Text Bytes) (send : Post → Result Text Reply)
    (from_str : Text → Result Text Response) where
  -- What `transcribe` makes of a reply.
  unfoldable pub read_reply : Text → Reply → Result SttError Transcription
  unfolding aggregate
  read_reply url resp =
      if not (leb 200 resp.status && leb resp.status 299)
      then err (
          http (
            url
            ++ (codes " returned status "
                ++ (decimal resp.status ++ (codes ": " ++ unwrap_or_default resp.body)))))
      else do
        text ← map_err (λ e. http (codes "failed to read response body: " ++ e)) resp.body
        parsed ← map_err parse (from_str text)
        ok (aggregate f parsed)

  -- `transcribe`.
  unfoldable pub transcribe : SttClient → Samples → Result SttError Transcription
  unfolding post read_reply
  transcribe client samples = do
    wav ← map_err audio (encode_wav samples)
    let request = post client wav
    resp ←
        map_err
          (λ e. http (codes "transport error contacting " ++ (request.url ++ (codes ": " ++ e))))
          (send request)
    read_reply request.url resp
