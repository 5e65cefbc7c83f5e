-- ===== src/Config/Validated.antt =====
-- What a validated configuration gives the other parts: `validate` of crates/daemon/src/config.rs
-- with `Injector::new` of crates/daemon/src/inject.rs.
use whispy.Base.{
  ℕ, Bool, true, false, not, ◌&&◌, ◌||◌, [], ◌∷◌, ◌++◌, ◌≡◌, ◌≢◌, inl, inr, refl, sym, ◌∙◌, ap,
  arith, Bool-cases, if◌then◌else◌, Result, ok, err, ◌==◌,
}
use whispy.Config.{Config, is_paste, is_finite, in_unit, validate, validate_fields}
use whispy.Float.{F32, F64, f32, float_le, float_lt}
use whispy.Inject.{paste, new}
use whispy.Text.Words.{is_empty, split_whitespace, words_from}
use whispy.Text.{Text, is_whitespace, trim, trim_start, trim_end}

-- A word that has begun is put out.
words_from_some : (d : ℕ) (cur s : Text) → words_from (d ∷ cur) s ≢ []
unfolding words_from
words_from_some d cur [] h = cc
words_from_some d cur (c ∷ s) h = elim (Bool-cases (is_whitespace c)) [
  | inl w ↦ cc
  | inr w ↦ words_from_some d (cur ++ (c ∷ [])) s (sym (rw w refl) ∙ h)
]

trim_start_blank : (s : Text) → words_from [] s ≡ [] → trim_start s ≡ []
unfolding words_from
trim_start_blank [] h = refl
trim_start_blank (c ∷ s) h = elim (Bool-cases (is_whitespace c)) [
  | inl w ↦ rw w (trim_start_blank s (sym (rw w refl) ∙ h))
  | inr w ↦ absurd (words_from_some c [] s (sym (rw w refl) ∙ h))
]

split_whitespace_trimmed : (s : Text) → is_empty (trim s) ≡ false → split_whitespace s ≢ []
unfolding split_whitespace
split_whitespace_trimmed s h e =
    let blank = ap (λ t. is_empty (trim_end t)) (trim_start_blank s e) in cc

-- A check that was passed.
passed :
    (b : Bool) (e : Text) (r : Result Text (Unit {0}))
    → (if b then err e else r) ≡ ok tt
    → (b ≡ false) × (r ≡ ok tt)
passed true e r h = cc
passed false e r h = (refl, h)

module _ (exists : Text → Bool) (show_f32 : F32 → Text) (show_f64 : F64 → Text) where
  -- What validation promises.
  pub record Sound (cfg : Config) : Type 0 where
    pub server_there : exists cfg.server_bin_path ≡ true
    pub model_there : exists cfg.model_file ≡ true
    pub right_rate : cfg.rate ≡ 16000
    pub right_channels : cfg.channels ≡ 1
    pub has_keys : cfg.mode ≡ paste → (new cfg.mode cfg.paste_keys).paste_keys ≢ []
    pub gain_positive : float_le f32 cfg.gain 0 ≡ false
    pub gain_finite : is_finite cfg.gain ≡ true
    pub ratio : in_unit cfg.fuzzy_ratio ≡ true
    pub threshold : float_lt f32 cfg.silence_rms_threshold 0 ≡ false

  -- A configuration that validation lets through names a server and a model that exist, records what
  -- the model reads, has a positive finite gain, a ratio from 0 to 1 and no negative threshold; and
  -- the injector built from it, if it is to paste, has keys to press.
  pub validate-Sound : (cfg : Config) → validate exists show_f32 show_f64 cfg ≡ ok tt → Sound cfg
  unfolding validate validate_fields new
  validate-Sound cfg h =
      let (server, h1) = passed (not (exists cfg.server_bin_path)) _ _ h in
      let (model, h2) = passed (not (exists cfg.model_file)) _ _ h1 in
      let (format, h3) = passed (not (cfg.rate == 16000) || not (cfg.channels == 1)) _ _ h2 in
      let (keys, h4) = passed (is_paste cfg.mode && is_empty (trim cfg.paste_keys)) _ _ h3 in
      let (gain, h5) = passed (float_le f32 cfg.gain 0 || not (is_finite cfg.gain)) _ _ h4 in
      let (ratio, h6) = passed (not (in_unit cfg.fuzzy_ratio)) _ _ h5 in
      let (threshold, h7) = passed (float_lt f32 cfg.silence_rms_threshold 0) _ _ h6 in
      record {
        server_there = ground (arith, server);
        model_there = ground (arith, model);
        right_rate = ground (arith, format);
        right_channels = ground (arith, format);
        has_keys = λ p. split_whitespace_trimmed cfg.paste_keys (sym (rw p refl) ∙ keys);
        gain_positive = ground (arith, gain);
        gain_finite = ground (arith, gain);
        ratio = ground (arith, ratio);
        threshold = threshold;
      }
