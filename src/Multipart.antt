-- ===== src/Multipart.antt =====
-- The server's side of the form: crates/stt/src/multipart.rs. The loop of `parse` runs on fuel.
pub mod Find
pub mod Fuel
pub mod Header
pub mod Rounds
pub mod RoundTrip
use whispy.Base.{
  ℕ, zero, suc, ◌+◌, Bool, true, false, ◌&&◌, not, Option, none, some, List, [], ◌∷◌, ◌++◌,
  if◌then◌else◌, list_eq, starts_with, take, drop, length, Result, ok, err, ◌>>=◌, ok_or, map,
  is_some,
}
use whispy.Inference.{file_field, language_field}
use whispy.Text.Split.{split, split_once, strip_prefix, trim_matches, lines}
use whispy.Text.Utf8.{from_utf8_lossy}
use whispy.Text.{Text, Bytes, codes, trim, is_whitespace, to_ascii_lowercase}

-- `Part` and `Form`.
pub record Part : Type 0 where
  pub name : Text
  pub body : Bytes

pub record Form : Type 0 where
  pub wav : Bytes
  pub language : Option Text

-- The `String` errors of the source; `out_of_fuel` is the model's own.
pub data Error : Type 0 where
  message : Text → Error
  out_of_fuel : Error

-- `find`, for a needle that is not empty (`windows(0)` panics).
unfoldable pub find : Bytes → Bytes → Option ℕ
find [] needle = none
find (x ∷ xs) needle =
    let rest = find xs needle in
    if starts_with (x ∷ xs) needle
    then some 0
    else elim rest [ none ↦ none | some i ↦ some (suc i) ]

-- `eq_ignore_ascii_case`.
abbrev pub eq_ignore_ascii_case : Text → Text → Bool
eq_ignore_ascii_case a b = list_eq (map to_ascii_lowercase a) (map to_ascii_lowercase b)

-- The parameter loops of `field_name` and `boundary`.
unfoldable pub find_name : List Text → Option Text
unfolding is_whitespace
find_name [] = none
find_name (p ∷ ps) =
    let rest = find_name ps in
    elim (split_once b'=' (trim p)) [
      | none ↦ rest
      | some (k, v) ↦
          if list_eq (trim k) (codes "name") then some (trim_matches b'"' (trim v)) else rest
    ]

unfoldable pub find_disposition : List Text → Option Text
find_disposition [] = none
find_disposition (l ∷ ls) =
    if starts_with (map to_ascii_lowercase l) (codes "content-disposition:")
    then some l
    else find_disposition ls

-- `field_name`.
unfoldable pub field_name : Text → Option Text
unfolding find_disposition find_name
field_name headers = elim (find_disposition (lines headers)) [
  | none ↦ none
  | some l ↦ find_name (split b';' l)
]

abbrev is_empty : Text → Bool
is_empty [] = true
is_empty (_ ∷ _) = false

unfoldable pub find_boundary : List Text → Option Text
unfolding is_whitespace
find_boundary [] = none
find_boundary (p ∷ ps) =
    let rest = find_boundary ps in
    elim (split_once b'=' (trim p)) [
      | none ↦ rest
      | some (k, v) ↦
          let value = trim_matches b'"' (trim v) in
          if eq_ignore_ascii_case (trim k) (codes "boundary") && not (is_empty value)
          then some value
          else rest
    ]

-- `boundary`.
unfoldable pub boundary : Text → Option Text
unfolding find_boundary is_whitespace
boundary content_type = elim (split_once b';' content_type) [
  | none ↦ none
  | some (kind, params) ↦
      if not (eq_ignore_ascii_case (trim kind) (codes "multipart/form-data"))
      then none
      else find_boundary (split b';' params)
]

-- What one round of `parse`'s loop finds: the end, or a part and the rest behind its data.
pub data Round : Type 0 where
  closed : Round
  parted : Option Part → Bytes → Round

-- The part, if its headers name it.
abbrev pub named_part : Option Text → Bytes → Option Part
named_part none body = none
named_part (some name) body = some (record { name = name; body = body })

-- The body of the loop, from the delimiter on.
unfoldable pub round : Bytes → Bytes → Result Error Round
unfolding find field_name
round delim rest = if starts_with rest (codes "--") then ok closed else do
  after_line ←
      ok_or (strip_prefix (codes "\r\n") rest)
        (message (codes "malformed multipart delimiter line"))
  header_end ←
      ok_or (find after_line (codes "\r\n\r\n"))
        (message (codes "multipart part without headers end"))
  let headers = from_utf8_lossy (take header_end after_line)
  let after_headers = drop (header_end + 4) after_line
  let next_delim = codes "\r\n" ++ delim
  data_end ← ok_or (find after_headers next_delim) (message (codes "unterminated multipart part"))
  ok (
      parted (named_part (field_name headers) (take data_end after_headers))
        (drop (data_end + length next_delim) after_headers))

abbrev push_part : Option Part → List Part → List Part
push_part none parts = parts
push_part (some p) parts = parts ++ (p ∷ [])

-- The loop.
unfoldable pub parse_rest : ℕ → Bytes → Bytes → List Part → Result Error (List Part)
unfolding round
parse_rest zero delim rest parts = err out_of_fuel
parse_rest (suc fuel) delim rest parts = elim (round delim rest) [
  | err e ↦ err e
  | ok closed ↦ ok parts
  | ok (parted p rest') ↦ parse_rest fuel delim rest' (push_part p parts)
]

-- `parse`.
unfoldable pub parse : Bytes → Bytes → Result Error (List Part)
unfolding parse_rest find
parse body boundary =
    let delim = codes "--" ++ boundary in
    elim (find body delim) [
      | none ↦ err (message (codes "no multipart boundary in body"))
      | some i ↦ parse_rest (suc (length body)) delim (drop (i + length delim) body) []
    ]

-- The loop of `inference_form`: the first part of a name wins.
unfoldable pub pick : Option Bytes → Option Text → List Part → Option Bytes × Option Text
pick wav language [] = (wav, language)
pick wav language (p ∷ ps) =
    let is_file = list_eq p.name file_field && not (is_some wav) in
    let is_language = list_eq p.name language_field && not (is_some language) in
    pick (if is_file then some p.body else wav)
      (if not is_file && is_language then some (from_utf8_lossy p.body) else language) ps

-- `inference_form`.
unfoldable pub inference_form : Bytes → Bytes → Result Error Form
inference_form body boundary = do
  parts ← parse body boundary
  let (wav, language) = pick none none parts
  clip ← ok_or wav (message (codes "missing the `file` part"))
  ok (record { wav = clip; language = language })
