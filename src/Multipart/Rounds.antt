-- ===== src/Multipart/Rounds.antt =====
-- The rounds of `parse`, crates/stt/src/multipart.rs, over the parts that `build_multipart`,
-- crates/common/src/inference.rs, writes.
use whispy.Base.{
  ℕ, suc, Option, none, some, List, [], ◌∷◌, ◌++◌, ◌≡◌, refl, length, ok, take-append, drop-append,
  drop-append_add, ap, ◌∙◌,
}
use mathlib.Core.List.{append_assoc}
use whispy.Inference.{
  Request, build_multipart, response_format_field, language_field, temperature_field, prompt_field,
  file_field, verbose_json, temperature,
}
use whispy.Multipart.Find.{Absent, find-append}
use whispy.Multipart.{find, field_name, parted, round, Part, parse_rest}
use whispy.Text.Utf8.{from_utf8_lossy}
use whispy.Text.{Bytes, Text, codes}

-- What stands between two delimiters, behind the first.
abbrev pub section : Bytes → Bytes → Bytes → Bytes
section headers value rest =
    codes "\r\n" ++ (headers ++ (codes "\r\n\r\n" ++ (value ++ (codes "\r\n" ++ rest))))

-- The headers of a text field.
abbrev pub field_headers : Bytes → Bytes
field_headers name = codes "Content-Disposition: form-data; name=\"" ++ (name ++ codes "\"")

abbrev pub delimiter : Bytes → Bytes
delimiter boundary = codes "--" ++ boundary

-- The value can be told from the framing.
abbrev pub IsFramed : Bytes → Bytes → Type 0
IsFramed boundary value = find value (codes "\r\n" ++ delimiter boundary) ≡ none

-- One round on a part whose headers hold no blank line: the part comes out, and the rest starts
-- behind the next delimiter.
round-section :
    (boundary headers value rest : Bytes) (name : Text)
    → Absent b'\r' boundary
    → find
        (headers ++ (codes "\r\n\r\n" ++ (value ++ (codes "\r\n" ++ (delimiter boundary ++ rest)))))
        (codes "\r\n\r\n")
      ≡ some (length headers)
    → field_name (from_utf8_lossy headers) ≡ some name
    → IsFramed boundary value
    → round (delimiter boundary) (section headers value (delimiter boundary ++ rest))
      ≡ ok (parted (some (record { name = name; body = value })) rest)
unfolding round
round-section boundary headers value rest name cr at_end named framed = rw at_end (
    rw (
      take-append headers (codes "\r\n\r\n" ++ body),
      named,
      drop-append_add headers (codes "\r\n\r\n" ++ body) 4,
      find-append value n rest b'\r' absent framed,
      take-append value (needle ++ rest),
      drop-append_add value (needle ++ rest) (length needle),
      drop-append needle rest,
    ))
  where
    n : Bytes
    n = b'\n' ∷ delimiter boundary

    needle : Bytes
    needle = b'\r' ∷ n

    body : Bytes
    body = value ++ (needle ++ rest)

    absent : Absent b'\r' n
    absent = cr

-- The headers of the file part.
abbrev pub file_headers : Bytes
file_headers =
    field_headers file_field
    ++ (codes "; filename=\"clip.wav\"\r\n" ++ codes "Content-Type: audio/wav")

-- What is left of the body behind each delimiter.
abbrev pub tail_end : Bytes
tail_end = codes "--\r\n"

abbrev pub tail_file : Bytes → Bytes → Bytes
tail_file boundary wav = section file_headers wav (delimiter boundary ++ tail_end)

abbrev pub tail_prompt : Bytes → Option Bytes → Bytes → Bytes
tail_prompt boundary none wav = tail_file boundary wav
tail_prompt boundary (some prompt) wav =
    section (field_headers prompt_field) prompt (delimiter boundary ++ tail_file boundary wav)

abbrev pub tail_temperature : Bytes → Request → Bytes → Bytes
tail_temperature boundary r wav =
    section (field_headers temperature_field) temperature
      (delimiter boundary ++ tail_prompt boundary r.prompt wav)

abbrev pub tail_language : Bytes → Request → Bytes → Bytes
tail_language boundary r wav =
    section (field_headers language_field) r.language
      (delimiter boundary ++ tail_temperature boundary r wav)

abbrev pub tail_format : Bytes → Request → Bytes → Bytes
tail_format boundary r wav =
    section (field_headers response_format_field) verbose_json
      (delimiter boundary ++ tail_language boundary r wav)

pub build_multipart-tails :
    (boundary : Bytes) (r : Request) (p : Option Bytes) (wav : Bytes)
    → r.prompt ≡ p
    → build_multipart boundary r wav ≡ delimiter boundary ++ tail_format boundary r wav
unfolding build_multipart
build_multipart-tails boundary r none wav e = rw e (simp append_assoc)
build_multipart-tails boundary r (some prompt) wav e = rw e (simp append_assoc)

abbrev pub part : Bytes → Bytes → Part
part name body = record { name = name; body = body }

-- The parts of the request, in order.
abbrev pub prompt_parts : Option Bytes → List Part → List Part
prompt_parts none rest = rest
prompt_parts (some prompt) rest = part prompt_field prompt ∷ rest

abbrev pub request_parts : Request → Bytes → List Part
request_parts r wav =
    part response_format_field verbose_json
    ∷ part language_field r.language
    ∷ part temperature_field temperature
    ∷ prompt_parts r.prompt (part file_field wav ∷ [])

abbrev pub IsFramedPrompt : Bytes → Option Bytes → Type 0
IsFramedPrompt boundary none = Unit
IsFramedPrompt boundary (some prompt) = IsFramed boundary prompt

module _ (boundary : Bytes) (cr : Absent b'\r' boundary) where
  -- A round on each of the parts.
  round_format :
      (rest : Bytes)
      → round
          (delimiter boundary)
          (section (field_headers response_format_field) verbose_json (delimiter boundary ++ rest))
        ≡ ok (parted (some (record { name = response_format_field; body = verbose_json })) rest)
  unfolding find field_name from_utf8_lossy
  round_format rest =
      round-section boundary (field_headers response_format_field) verbose_json rest
        response_format_field cr refl refl refl

  round_language :
      (value rest : Bytes)
      → IsFramed boundary value
      → round
          (delimiter boundary)
          (section (field_headers language_field) value (delimiter boundary ++ rest))
        ≡ ok (parted (some (record { name = language_field; body = value })) rest)
  unfolding find field_name from_utf8_lossy
  round_language value rest framed =
      round-section boundary (field_headers language_field) value rest language_field cr refl refl
        framed

  round-temperature :
      (rest : Bytes)
      → round
          (delimiter boundary)
          (section (field_headers temperature_field) temperature (delimiter boundary ++ rest))
        ≡ ok (parted (some (record { name = temperature_field; body = temperature })) rest)
  unfolding find field_name from_utf8_lossy
  round-temperature rest =
      round-section boundary (field_headers temperature_field) temperature rest temperature_field cr
        refl refl refl

  round_prompt :
      (value rest : Bytes)
      → IsFramed boundary value
      → round
          (delimiter boundary)
          (section (field_headers prompt_field) value (delimiter boundary ++ rest))
        ≡ ok (parted (some (record { name = prompt_field; body = value })) rest)
  unfolding find field_name from_utf8_lossy
  round_prompt value rest framed =
      round-section boundary (field_headers prompt_field) value rest prompt_field cr refl refl
        framed

  round_file :
      (wav rest : Bytes)
      → IsFramed boundary wav
      → round (delimiter boundary) (section file_headers wav (delimiter boundary ++ rest))
        ≡ ok (parted (some (record { name = file_field; body = wav })) rest)
  unfolding find field_name from_utf8_lossy
  round_file wav rest framed =
      round-section boundary file_headers wav rest file_field cr refl refl framed

  -- The loop over a round that gives a part.
  parse_rest_part :
      (fuel : ℕ) (rest : Bytes) {rest' : Bytes} (parts : List Part) {p : Part}
      → round (delimiter boundary) rest ≡ ok (parted (some p) rest')
      → parse_rest (suc fuel) (delimiter boundary) rest parts
        ≡ parse_rest fuel (delimiter boundary) rest' (parts ++ (p ∷ []))
  unfolding parse_rest
  parse_rest_part fuel rest parts e = rw (e, parse_rest)

  parse_rest_closed :
      (fuel : ℕ) (parts : List Part)
      → parse_rest (suc fuel) (delimiter boundary) tail_end parts ≡ ok parts
  unfolding parse_rest round
  parse_rest_closed fuel parts = refl

  parse_rest_tail :
      (fuel : ℕ) (p : Option Bytes) (wav : Bytes) (parts : List Part)
      → IsFramedPrompt boundary p
      → IsFramed boundary wav
      → parse_rest (suc (suc (suc fuel))) (delimiter boundary) (tail_prompt boundary p wav) parts
        ≡ ok (parts ++ prompt_parts p (part file_field wav ∷ []))
  parse_rest_tail fuel none wav parts fp fw =
      parse_rest_part (suc (suc fuel)) _ parts (round_file wav tail_end fw)
      ∙ parse_rest_closed (suc fuel) _
  parse_rest_tail fuel (some prompt) wav parts fp fw =
      parse_rest_part (suc (suc fuel)) _ parts (round_prompt prompt (tail_file boundary wav) fp)
      ∙ parse_rest_part (suc fuel) _ _ (round_file wav tail_end fw)
      ∙ parse_rest_closed fuel _
      ∙ ap ok (append_assoc parts (part prompt_field prompt ∷ []) (part file_field wav ∷ []))

  pub parse_rest_request :
      (fuel : ℕ) (r : Request) (wav : Bytes)
      → IsFramed boundary r.language
      → IsFramedPrompt boundary r.prompt
      → IsFramed boundary wav
      → parse_rest
          (suc (suc (suc (suc (suc (suc fuel))))))
          (delimiter boundary)
          (tail_format boundary r wav)
          []
        ≡ ok (request_parts r wav)
  parse_rest_request fuel r wav fl fp fw =
      parse_rest_part _ _ [] (round_format (tail_language boundary r wav))
      ∙ parse_rest_part _ _ _ (round_language r.language (tail_temperature boundary r wav) fl)
      ∙ parse_rest_part _ _ _ (round-temperature (tail_prompt boundary r.prompt wav))
      ∙ parse_rest_tail fuel r.prompt wav _ fp fw
