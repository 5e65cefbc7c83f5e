-- ===== src/Config.antt =====
-- The validation of the configuration: `validate` of crates/daemon/src/config.rs. Whether a path
-- exists, and how a float is shown, are arguments.
pub mod Validated
use whispy.Base.{ℕ, Bool, true, false, ◌&&◌, ◌||◌, not, ◌++◌, ◌==◌, if◌then◌else◌, Result, ok, err}
use whispy.Engine.{Engine, server_name, setup_step}
use whispy.Float.{F32, F64, f32, f64, float_le, float_lt, magnitude}
use whispy.Inject.{InjectMode, paste, type}
use whispy.Text.Decimal.{decimal}
use whispy.Text.Words.{is_empty}
use whispy.Text.{Text, codes, trim}

-- What `validate` reads: the paths come from `server_bin_path` and `model_file`.
pub record Config : Type 0 where
  pub engine : Engine
  pub server_bin_path : Text
  pub model_file : Text
  pub rate : ℕ
  pub channels : ℕ
  pub mode : InjectMode
  pub paste_keys : Text
  pub gain : F32
  pub fuzzy_ratio : F64
  pub silence_rms_threshold : F32

abbrev pub is_paste : InjectMode → Bool
is_paste paste = true
is_paste type = false

abbrev pub is_finite : F32 → Bool
is_finite x = float_lt f32 (magnitude f32 x) f32.infinity

-- `(0.0..=1.0).contains`.
abbrev pub in_unit : F64 → Bool
in_unit x = float_le f64 0 x && float_le f64 x 0x3ff0000000000000

module _ (exists : Text → Bool) (show_f32 : F32 → Text) (show_f64 : F64 → Text) where
  -- The checks behind the files.
  unfoldable pub validate_fields : Config → Result Text (Unit {0})
  validate_fields cfg =
      if not (cfg.rate == 16000) || not (cfg.channels == 1)
      then err (
          codes "audio.rate must be 16000 and audio.channels 1 (whisper's input format), got "
          ++ (decimal cfg.rate ++ (codes " Hz / " ++ (decimal cfg.channels ++ codes " ch"))))
      else if is_paste cfg.mode && is_empty (trim cfg.paste_keys)
      then err (codes "injection.paste_keys must be set when mode = \"paste\"")
      else if float_le f32 cfg.gain 0 || not (is_finite cfg.gain)
      then err (codes "audio.gain must be > 0, got " ++ show_f32 cfg.gain)
      else if not (in_unit cfg.fuzzy_ratio)
      then err (codes "filter.fuzzy_ratio must be in [0.0, 1.0], got " ++ show_f64 cfg.fuzzy_ratio)
      else if float_lt f32 cfg.silence_rms_threshold 0
      then err (
          codes "audio.silence_rms_threshold must be >= 0, got "
          ++ show_f32 cfg.silence_rms_threshold)
      else ok tt

  -- `validate`.
  unfoldable pub validate : Config → Result Text (Unit {0})
  unfolding validate_fields server_name setup_step
  validate cfg =
      if not (exists cfg.server_bin_path)
      then err (
          server_name cfg.engine
          ++ (codes " not found at "
              ++ (cfg.server_bin_path
                  ++ (codes " — run `whispy-daemon setup "
                      ++ (setup_step cfg.engine ++ codes "`")))))
      else if not (exists cfg.model_file)
      then err (
          codes "model file not found at "
          ++ (cfg.model_file ++ codes " — run `whispy-daemon setup model`"))
      else validate_fields cfg
