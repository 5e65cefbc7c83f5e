-- ===== src/Stt/Wire.antt =====
-- The daemon's request as the server reads it: `transcribe` of crates/daemon/src/stt.rs against
-- crates/stt/src/multipart.rs.
use whispy.Base.{some, ◌≡◌, refl, ok, ap, ◌∙◌}
use whispy.Inference.{daemon_boundary}
use whispy.Multipart.Header.{boundary-content_type}
use whispy.Multipart.RoundTrip.{inference_form-build_multipart}
use whispy.Multipart.Rounds.{IsFramed, IsFramedPrompt}
use whispy.Multipart.{boundary, inference_form}
use whispy.Stt.{SttClient, post, encode_optional}
use whispy.Text.Encode.{as_bytes, IsText, from_utf8_lossy-as_bytes}
use whispy.Text.{Text, Bytes}

-- The server finds the boundary in the header that the daemon sends, and in the body the clip, byte
-- for byte, and the configured language, whatever it is written in; unless the clip, the
-- language or the prompt holds the framing of a delimiter line.
pub post_read :
    (client : SttClient) (wav : Bytes)
    → IsText client.language
    → IsFramed daemon_boundary (as_bytes client.language)
    → IsFramedPrompt daemon_boundary (encode_optional client.prompt)
    → IsFramed daemon_boundary wav
    → (boundary (post client wav).content_type ≡ some daemon_boundary)
      × (inference_form (post client wav).body daemon_boundary
          ≡ ok (record { wav = wav; language = some client.language }))
unfolding post whispy.Multipart.Header.is_plain whispy.Text.is_whitespace
post_read client wav text fl fp fw = (
  boundary-content_type daemon_boundary (λ h. cc) refl,
  inference_form-build_multipart daemon_boundary _ wav refl fl fp fw
      ∙ ap (λ l. ok (record { wav = wav; language = some l }))
          (from_utf8_lossy-as_bytes client.language text),
)
