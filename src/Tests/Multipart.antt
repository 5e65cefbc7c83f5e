-- ===== src/Tests/Multipart.antt =====
-- The form on concrete bytes: crates/stt/src/multipart.rs and crates/common/src/inference.rs.
use whispy.Base.{some, [], ◌∷◌, ◌++◌, ◌≡◌, ◌≢◌, refl, ok, err}
use whispy.Inference.{Request, build_multipart, daemon_boundary}
use whispy.Multipart.Fuel.{parse_ends}
use whispy.Multipart.RoundTrip.{inference_form-build_multipart}
use whispy.Multipart.{boundary, parse, inference_form, Error, message, out_of_fuel, Part, Form}
use whispy.Text.Utf8.{from_utf8_lossy}
use whispy.Text.{Bytes, codes}

abbrev request : Request
request = record { language = codes "de"; prompt = some (codes "Whispy") }

-- A clip with a line break and dashes in it.
abbrev wav : Bytes
wav = codes "RIFF\r\n--" ++ (0 ∷ 255 ∷ [])

inference_form-build_multipart_example :
    inference_form (build_multipart daemon_boundary request wav) daemon_boundary
    ≡ ok (record { wav = wav; language = some (from_utf8_lossy (codes "de")) })
unfolding whispy.Multipart.find
inference_form-build_multipart_example =
    inference_form-build_multipart daemon_boundary request wav refl refl refl refl

parse_ends_example : parse (codes "--x\r\nno end") (codes "x") ≢ err out_of_fuel
parse_ends_example = parse_ends (codes "--x\r\nno end") (codes "x")

-- Errors of the framing.
no_boundary :
    parse (codes "hello") (codes "x") ≡ err (message (codes "no multipart boundary in body"))
unfolding parse
no_boundary = refl

unterminated :
    parse (codes "--x\r\nA: b\r\n\r\nabc") (codes "x")
    ≡ err (message (codes "unterminated multipart part"))
unfolding parse
unterminated = refl

-- Quoted parameters, and header names in any case.
quoted : boundary (codes "Multipart/Form-Data; charset=utf-8; Boundary=\"ab\"") ≡ some (codes "ab")
unfolding boundary
quoted = refl

no_file :
    inference_form
      (codes "--x\r\nContent-Disposition: form-data; name=\"a\"\r\n\r\nv\r\n--x--")
      (codes "x")
    ≡ err (message (codes "missing the `file` part"))
unfolding inference_form parse whispy.Multipart.pick from_utf8_lossy
no_file = refl
