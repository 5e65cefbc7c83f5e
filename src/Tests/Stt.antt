-- ===== src/Tests/Stt.antt =====
-- The client and the server on concrete inputs: crates/daemon/src/stt.rs and crates/stt/src/reply.rs.
use whispy.Base.{some, none, [], ◌∷◌, ◌≡◌, refl, ok, inl, arith}
use whispy.Filter.{is_low, evaluate, drop, empty}
use whispy.Float.{Arith}
use whispy.Inference.{daemon_boundary}
use whispy.Multipart.{boundary, inference_form}
use whispy.Reply.Silence.{verbose_json_silence}
use whispy.Reply.{Outcome, verbose_json, language_hint, language_name}
use whispy.Stt.Wire.{post_read}
use whispy.Stt.{SttClient, new, post, normalize_whitespace, aggregate, base_url}
use whispy.Text.Chars.{ascii}
use whispy.Text.Encode.{IsText}
use whispy.Text.Words.{split_whitespace}
use whispy.Text.{Text, Bytes, codes}
use whispy.Tests.Filter.{config, blacklist}

abbrev client : SttClient
client =
    new (record { host = codes "::1"; port = 8178; language = codes "auto" })
      (some (codes "Whispy"))

abbrev wav : Bytes
wav = codes "RIFF\r\n--"

abbrev arith0 : Arith
arith0 = record {
  of_nat = λ n. n;
  add = λ a b. a;
  mul = λ a b. a;
  div = λ a b. a;
  maximum = λ a b. a;
}

auto-IsText : IsText (codes "auto")
auto-IsText = (inl (omega arith), (inl (omega arith), (inl (omega arith), (inl (omega arith), tt))))

post_read_example :
    (boundary (post client wav).content_type ≡ some daemon_boundary)
    × (inference_form (post client wav).body daemon_boundary
        ≡ ok (record { wav = wav; language = some (codes "auto") }))
unfolding new whispy.Multipart.find whispy.Text.Encode.as_bytes whispy.Text.is_whitespace
post_read_example = post_read client wav auto-IsText refl refl refl

abbrev hush : Outcome
hush = record { text = codes " \n"; language = none; token_probs = 1 ∷ [] }

verbose_json_silence_example :
    ((aggregate arith0 (verbose_json arith0 (λ p. p) hush none)).text ≡ [])
    × (evaluate ascii
          (λ _ _. 0)
          (aggregate arith0 (verbose_json arith0 (λ p. p) hush none)).text
          (record {
            avg_logprob = (aggregate arith0 (verbose_json arith0 (λ p. p) hush none)).avg_logprob;
            no_speech_prob =
                (aggregate arith0 (verbose_json arith0 (λ p. p) hush none)).no_speech_prob;
          })
          config
          blacklist
        ≡ drop empty)
unfolding whispy.Text.is_whitespace is_low whispy.Float.float_lt
verbose_json_silence_example =
    verbose_json_silence arith0 (λ p. p) ascii (λ _ _. 0) hush none config blacklist refl

-- An IPv6 host is put in brackets.
bracketed : base_url (codes "::1") 8178 ≡ codes "http://[::1]:8178"
unfolding base_url whispy.Text.Decimal.decimal
bracketed = refl

tidied : normalize_whitespace (codes " so\n it  goes") ≡ codes "so it goes"
unfolding normalize_whitespace whispy.Text.Words.join split_whitespace whispy.Text.is_whitespace
tidied = refl

named : language_name (codes "DE") ≡ codes "german"
unfolding language_name
named = refl

unhinted : language_hint (some (codes "auto")) ≡ none
unfolding language_hint whispy.Text.is_whitespace
unhinted = refl
