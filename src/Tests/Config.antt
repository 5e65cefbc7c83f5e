-- ===== src/Tests/Config.antt =====
-- Validating concrete configurations: crates/daemon/src/config.rs and engine.rs.
use whispy.Base.{[], ◌∷◌, ◌≡◌, refl, true, ok, err}
use whispy.Config.Validated.{Sound, validate-Sound}
use whispy.Config.{Config, validate}
use whispy.Engine.{parakeet, whisper, vocabulary}
use whispy.Inject.{paste}
use whispy.Pipeline.{prompt}
use whispy.Text.{codes}

abbrev config : Config
config = record {
  engine = parakeet;
  server_bin_path = codes "/usr/bin/whispy-stt";
  model_file = codes "/m.gguf";
  rate = 16000;
  channels = 1;
  mode = paste;
  paste_keys = codes "29:1 47:1";
  gain = 0x3f800000;
  fuzzy_ratio = 0x3fe0000000000000;
  silence_rms_threshold = 0x3c23d70a;
}

validate-Sound_example : Sound (λ _. true) (λ _. []) (λ _. []) config
unfolding validate whispy.Text.is_whitespace whispy.Float.float_le
validate-Sound_example = validate-Sound (λ _. true) (λ _. []) (λ _. []) config refl

no_keys :
    validate (λ _. true) (λ _. []) (λ _. []) (record config { paste_keys = codes "  " })
    ≡ err (codes "injection.paste_keys must be set when mode = \"paste\"")
unfolding validate whispy.Text.is_whitespace
no_keys = refl

-- A threshold that is NaN passes.
nan_passes :
    validate (λ _. true) (λ _. []) (λ _. []) (record config { silence_rms_threshold = 0x7fc00000 })
    ≡ ok tt
unfolding validate whispy.Text.is_whitespace whispy.Float.float_le
nan_passes = refl

prompted :
    vocabulary whisper (codes "Hyprland" ∷ codes "Omarchy" ∷ [])
    ≡ prompt (codes "Hyprland, Omarchy")
unfolding vocabulary
prompted = refl
