-- ===== src/Multipart/RoundTrip.antt =====
-- The daemon's request through both ends of the wire: `build_multipart` of
-- crates/common/src/inference.rs, then `parse` and `inference_form` of crates/stt/src/multipart.rs.
use whispy.Base.{
  ℕ, suc, ◌-◌, Option, none, some, [], ◌∷◌, ◌++◌, ◌≡◌, ◌≢◌, refl, arith, length, ok, length-append,
  drop-append_zero, ap, ◌∙◌, starts_with-append,
}
use whispy.Inference.{Request, build_multipart}
use whispy.Multipart.Find.{Absent}
use whispy.Multipart.Rounds.{
  delimiter, tail_format, build_multipart-tails, IsFramed, IsFramedPrompt, request_parts,
  parse_rest_request,
}
use whispy.Multipart.{find, parse, parse_rest, pick, inference_form}
use whispy.Text.Utf8.{from_utf8_lossy}
use whispy.Text.{Bytes}

find_front : (n rest : Bytes) → n ≢ [] → find (n ++ rest) n ≡ some 0
unfolding find
find_front [] rest ne = absurd (ne refl)
find_front (x ∷ n) rest ne = ground (arith, starts_with-append (x ∷ n) rest)

parse_tails :
    (boundary rest : Bytes) (fuel : ℕ)
    → length (delimiter boundary ++ rest) ≡ fuel
    → parse (delimiter boundary ++ rest) boundary
      ≡ parse_rest (suc fuel) (delimiter boundary) rest []
unfolding parse
parse_tails boundary rest fuel e =
    rw (find_front (delimiter boundary) rest (λ h. cc), drop-append_zero (delimiter boundary) rest)
      (ap (λ n. parse_rest (suc n) (delimiter boundary) rest []) e)

-- What `parse` reads in the body that `build_multipart` wrote: the fields in order, each with its
-- bytes, for any boundary without a carriage return and any values that do not hold the framing
-- of a delimiter line.
parse-build_multipart :
    (boundary : Bytes) (r : Request) (wav : Bytes)
    → Absent b'\r' boundary
    → IsFramed boundary r.language
    → IsFramedPrompt boundary r.prompt
    → IsFramed boundary wav
    → parse (build_multipart boundary r wav) boundary ≡ ok (request_parts r wav)
parse-build_multipart boundary r wav cr fl fp fw =
    ap (λ b. parse b boundary) (build_multipart-tails boundary r r.prompt wav refl)
    ∙ parse_tails boundary (tail_format boundary r wav) (suc (suc (suc (suc (suc fuel))))) enough
    ∙ parse_rest_request boundary cr fuel r wav fl fp fw
  where
    fuel : ℕ
    fuel = length (delimiter boundary ++ tail_format boundary r wav) - 5

    enough :
        length (delimiter boundary ++ tail_format boundary r wav) ≡ suc (suc (suc (suc (suc fuel))))
    enough = omega (arith, length-append (delimiter boundary) (tail_format boundary r wav))

pick-request_parts :
    (r : Request) (p : Option Bytes) (wav : Bytes)
    → r.prompt ≡ p
    → pick none none (request_parts r wav) ≡ (some wav, some (from_utf8_lossy r.language))
unfolding pick
pick-request_parts r none wav e = rw (e, pick)
pick-request_parts r (some prompt) wav e = rw (e, pick)

-- The whole request: the server gets back the clip byte for byte and the language, decoded, from
-- the body that the daemon sends, under the conditions of `parse-build_multipart`.
pub inference_form-build_multipart :
    (boundary : Bytes) (r : Request) (wav : Bytes)
    → Absent b'\r' boundary
    → IsFramed boundary r.language
    → IsFramedPrompt boundary r.prompt
    → IsFramed boundary wav
    → inference_form (build_multipart boundary r wav) boundary
      ≡ ok (record { wav = wav; language = some (from_utf8_lossy r.language) })
unfolding inference_form
inference_form-build_multipart boundary r wav cr fl fp fw =
    rw (parse-build_multipart boundary r wav cr fl fp fw, pick-request_parts r r.prompt wav refl)
