-- ===== src/Inference.antt =====
-- The `/inference` wire contract: crates/common/src/inference.rs. Strings of the request are their
-- UTF-8 bytes.
use whispy.Base.{Option, none, some, List, [], ◌++◌}
use whispy.Float.{F32}
use whispy.Text.{Text, Bytes, codes}

-- Constants. Every literal is ASCII, so its code points are its bytes.
abbrev pub path : Bytes
path = codes "/inference"

abbrev pub daemon_boundary : Bytes
daemon_boundary = codes "----whispyFormBoundary7MA4YWxkTrZu0gW"

abbrev pub verbose_json : Bytes
verbose_json = codes "verbose_json"

abbrev pub temperature : Bytes
temperature = codes "0.0"

-- The field names.
abbrev pub response_format_field : Bytes
response_format_field = codes "response_format"

abbrev pub language_field : Bytes
language_field = codes "language"

abbrev pub temperature_field : Bytes
temperature_field = codes "temperature"

abbrev pub prompt_field : Bytes
prompt_field = codes "prompt"

abbrev pub file_field : Bytes
file_field = codes "file"

-- `Request`.
pub record Request : Type 0 where
  pub language : Bytes
  pub prompt : Option Bytes

-- `Segment` and `Response`.
pub record Segment : Type 0 where
  pub text : Text
  pub avg_logprob : F32
  pub no_speech_prob : F32

pub record Response : Type 0 where
  pub text : Text
  pub detected_language : Option Text
  pub segments : List Segment

-- The `text_field` closure: what it appends to the body.
abbrev pub text_field : Bytes → Bytes → Bytes → Bytes
text_field boundary name value =
    codes "--"
    ++ (boundary
        ++ (codes "\r\n"
            ++ (codes "Content-Disposition: form-data; name=\""
                ++ (name ++ (codes "\"\r\n\r\n" ++ (value ++ codes "\r\n"))))))

abbrev pub prompt_part : Bytes → Option Bytes → Bytes
prompt_part boundary none = []
prompt_part boundary (some prompt) = text_field boundary prompt_field prompt

abbrev pub file_part : Bytes → Bytes → Bytes
file_part boundary wav =
    codes "--"
    ++ (boundary
        ++ (codes "\r\n"
            ++ (codes "Content-Disposition: form-data; name=\""
                ++ (file_field
                    ++ (codes "\"; filename=\"clip.wav\"\r\n"
                        ++ (codes "Content-Type: audio/wav\r\n\r\n" ++ (wav ++ codes "\r\n")))))))

-- `build_multipart`.
unfoldable pub build_multipart : Bytes → Request → Bytes → Bytes
build_multipart boundary request wav =
    text_field boundary response_format_field verbose_json
    ++ (text_field boundary language_field request.language
        ++ (text_field boundary temperature_field temperature
            ++ (prompt_part boundary request.prompt
                ++ (file_part boundary wav ++ (codes "--" ++ (boundary ++ codes "--\r\n"))))))
