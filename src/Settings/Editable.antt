-- ===== src/Settings/Editable.antt =====
-- The editable settings: crates/daemon/src/settings/editable.rs. The document (`toml_edit`), the reading
-- of an edited config and the text of a parse error are arguments.
pub mod Saving
use whispy.Base.{
  ℕ, zero, Bool, true, false, not, Option, none, some, List, [], ◌∷◌, ◌++◌, ◌≡◌, map, any, list_eq,
  ltb, ◌&&◌, if◌then◌else◌, Result, ok, err, ◌>>=◌,
}
use whispy.Choice.{ConfigChoice, parse}
use whispy.Engine.{Engine, whisper, parakeet, engine_choice}
use whispy.Inject.{InjectMode, paste, type, mode_choice}
use whispy.Settings.Form.{
  SectionKey, microphone, engine, language, typing, auto_stop, Choice, Body, radio, Section, Form,
  value,
}
use whispy.Settings.Sources.{Source, microphone_choices, chosen_among}
use whispy.Text.Decimal.{decimal}
use whispy.Text.Number.{parse_u64}
use whispy.Text.{Text, codes}

-- What the settings read of a `Config`.
pub record Values : Type 0 where
  pub source : Text
  pub engine : Engine
  pub language : Text
  pub mode : InjectMode
  pub silence_timeout_ms : ℕ

-- `toml_edit::Value`, as far as settings write it.
pub data Value : Type 0 where
  string : Text → Value
  integer : ℕ → Value

-- `Options`.
pub data Options : Type 0 where
  fixed : List Choice → Options
  microphones : Options

-- `Setting`.
pub record Setting : Type 0 where
  pub key : SectionKey
  pub title : Text
  pub hint : Text
  pub table : Text
  pub name : Text
  pub options : Options
  pub read : Values → Text
  pub write : Text → Result Text Value

abbrev pub listed_choice : Text × Text × Text → Choice
listed_choice (label, value, detail) = record { label = label; value = value; detail = detail }

-- `listed`.
abbrev pub listed : List (Text × Text × Text) → List Choice
listed = map listed_choice

abbrev pub keyword_choice : {A : Type 0} ⦃choice : ConfigChoice A⦄ → (A → Text × Text) → A → Choice
keyword_choice ⦃choice⦄ describe c = record {
  label = (describe c).0;
  value = choice.as_str c;
  detail = (describe c).1;
}

-- `keywords`.
abbrev pub keywords : {A : Type 0} ⦃choice : ConfigChoice A⦄ → (A → Text × Text) → List Choice
keywords ⦃choice⦄ describe = map (keyword_choice describe) choice.all_values

abbrev pub describe_engine : Engine → Text × Text
describe_engine parakeet =
    (codes "Parakeet", codes "fastest, punctuates well, no text on silence · 25 European languages")
describe_engine whisper =
    (codes "Whisper", codes "~100 languages · vocabulary as a decoding prompt")

abbrev pub describe_mode : InjectMode → Text × Text
describe_mode type = (codes "Type", codes "wtype types it; works in terminals")
describe_mode paste = (codes "Paste", codes "clipboard + Ctrl+V; needs ydotoold")

-- `i64::MAX`.
abbrev pub i64_mod : ℕ
i64_mod = 9223372036854775808

-- `{value:?}` and `{known:?}`, and the `Display` of a failed parse.
pub record Messages : Type 0 where
  pub debug : Text → Text
  pub debug_list : List Text → Text
  pub parse_error : Text → Text

abbrev pub or_unknown :
    {A : Type 0} ⦃choice : ConfigChoice A⦄ → Messages → Text → Option A → Result Text Value
or_unknown ⦃choice⦄ m v none = err (
    codes "unknown value "
    ++ (m.debug v
        ++ (codes " (expected one of "
            ++ (m.debug_list (map choice.as_str choice.all_values) ++ codes ")"))))
or_unknown ⦃choice⦄ m v (some c) = ok (string (choice.as_str c))

-- `keyword`.
unfoldable pub keyword :
    (A : Type 0) ⦃choice : ConfigChoice A⦄ → Messages → Text → Result Text Value
unfolding parse
keyword A ⦃choice⦄ m v = or_unknown {A = A} m v (parse v)

abbrev pub of_duration : Messages → Text → Option ℕ → Result Text Value
of_duration m v none =
    err (m.debug v ++ (codes " is not a duration in ms (" ++ (m.parse_error v ++ codes ")")))
of_duration m v (some ms) =
    if ltb ms i64_mod
    then ok (integer ms)
    else err (codes "out of range integral type conversion attempted")

-- The `write` of the auto-stop.
unfoldable pub duration : Messages → Text → Result Text Value
unfolding parse_u64
duration m v = of_duration m v (parse_u64 v)

-- `SETTINGS`.
abbrev pub microphone_setting : Setting
microphone_setting = record {
  key = microphone;
  title = codes "Microphone";
  hint = codes "Where dictation records from. The meter follows the highlighted one.";
  table = codes "audio";
  name = codes "source";
  options = microphones;
  read = λ cfg. cfg.source;
  write = λ v. ok (string v);
}

abbrev pub engine_setting : Messages → Setting
unfolding keyword
engine_setting m = record {
  key = engine;
  title = codes "Engine";
  hint = codes "The speech-to-text model. Switching needs it installed: whispy-daemon setup.";
  table = codes "stt";
  name = codes "engine";
  options = fixed (keywords describe_engine);
  read = λ cfg. engine_choice.as_str cfg.engine;
  write = keyword Engine m;
}

abbrev pub language_setting : Setting
language_setting = record {
  key = language;
  title = codes "Language";
  hint = codes "Automatic detects the language of each dictation, so you can switch freely.";
  table = codes "stt";
  name = codes "language";
  options = fixed (
      listed (
        (codes "Automatic", codes "auto", codes "detected per dictation")
        ∷ (codes "Italiano", codes "it", [])
        ∷ (codes "English", codes "en", [])
        ∷ (codes "Español", codes "es", [])
        ∷ (codes "Français", codes "fr", [])
        ∷ (codes "Deutsch", codes "de", [])
        ∷ (codes "Português", codes "pt", [])
        ∷ []));
  read = λ cfg. cfg.language;
  write = λ v. ok (string v);
}

abbrev pub typing_setting : Messages → Setting
unfolding keyword
typing_setting m = record {
  key = typing;
  title = codes "Typing";
  hint = codes "How the transcript reaches the focused window.";
  table = codes "injection";
  name = codes "mode";
  options = fixed (keywords describe_mode);
  read = λ cfg. mode_choice.as_str cfg.mode;
  write = keyword InjectMode m;
}

abbrev pub auto_stop_setting : Messages → Setting
unfolding duration
auto_stop_setting m = record {
  key = auto_stop;
  title = codes "Auto-stop";
  hint = codes "After you stop talking, stop recording and transcribe after this much silence.";
  table = codes "audio";
  name = codes "silence_timeout_ms";
  options = fixed (
      listed (
        (codes "Off", codes "0", codes "stop only with the key")
        ∷ (codes "1 s", codes "1000", [])
        ∷ (codes "1.5 s", codes "1500", [])
        ∷ (codes "2 s", codes "2000", [])
        ∷ (codes "3 s", codes "3000", [])
        ∷ (codes "5 s", codes "5000", [])
        ∷ []));
  read = λ cfg. decimal cfg.silence_timeout_ms;
  write = duration m;
}

abbrev pub settings : Messages → List Setting
settings m =
    microphone_setting
    ∷ engine_setting m
    ∷ language_setting
    ∷ typing_setting m
    ∷ auto_stop_setting m
    ∷ []

-- `radio`.
unfoldable pub choices_with : List Choice → Text → List Choice × ℕ
unfolding chosen_among
choices_with choices current =
    let all_choices =
      if not (any (λ (c : Choice). list_eq c.value current) choices)
      then choices ++ (record { label = current; value = current; detail = codes "current" } ∷ [])
      else choices in
    (all_choices, chosen_among all_choices current)

abbrev pub radio_of : List Choice × ℕ → Body
radio_of (choices, chosen) = radio choices chosen

abbrev pub body_for : List Source → Option Text → Text → Options → Body
body_for sources default current microphones = radio_of (microphone_choices sources default current)
body_for sources default current (fixed choices) = radio_of (choices_with choices current)

abbrev pub section_for : Values → List Source → Option Text → Setting → Section
section_for cfg sources default s = record {
  key = s.key;
  title = s.title;
  hint = s.hint;
  body = body_for sources default (s.read cfg) s.options;
}

-- `sections`.
unfoldable pub sections : Messages → Values → List Source → Option Text → List Section
unfolding choices_with microphone_choices
sections m cfg sources default = map (section_for cfg sources default) (settings m)

-- `DocumentMut`: what a key of a table holds, and `set`.
pub record Document (D : Type 0) : Type 0 where
  pub parse_text : Text → Result Text D
  pub print : D → Text
  pub get : Text → Text → D → Option Value
  pub set : Text → Text → Value → D → D
  pub get-set :
      (table key table' key' : Text) (v : Value) (doc : D)
      → get table' key' (set table key v doc)
        ≡ (if list_eq table table' && list_eq key key' then some v else get table' key' doc)

-- `Table.key` in front of an error.
abbrev pub at_place : Setting → {A : Type 0} → Result Text A → Result Text A
at_place s (ok x) = ok x
at_place s (err e) = err (s.table ++ (codes "." ++ (s.name ++ (codes ": " ++ e))))

abbrev pub chosen_value : Option Text → Result Text Text
chosen_value none = err (codes "nothing chosen")
chosen_value (some v) = ok v

-- What `save` meets in the file system.
pub data Found : Type 0 where
  text_of : Text → Found
  missing : Found
  unreadable : Text → Found

pub record SaveIo : Type 0 where
  pub path : Text
  pub dir : Text
  pub found : Found
  pub dir_made : Result Text (Unit {0})
  pub written : Result Text (Unit {0})
  pub renamed : Result Text (Unit {0})

abbrev pub about_file : Text → {A : Type 0} → Result Text A → Result Text A
about_file path (ok x) = ok x
about_file path (err e) = err (path ++ (codes ": " ++ e))

abbrev pub old_text : Text → Found → Result Text Text
old_text defaults (text_of t) = ok t
old_text defaults missing = ok defaults
old_text defaults (unreadable e) = err e

module _ {D : Type 0} (doc : Document D) (m : Messages) where
  -- The loop of `apply`.
  unfoldable pub edit : Form → List Setting → D → Result Text D
  unfolding value
  edit form [] d = ok d
  edit form (s ∷ ss) d = do
    chosen ← at_place s (chosen_value (value form s.key))
    v ← at_place s (s.write chosen)
    edit form ss (doc.set s.table s.name v d)

  abbrev pub checked : (Text → Result Text (Unit {0})) → Text → Result Text Text
  checked validate out = do _ ← validate out; ok out

  abbrev pub malformed : {A : Type 0} → Result Text A → Result Text A
  malformed (ok x) = ok x
  malformed (err e) = err (codes "config.toml: " ++ e)

  -- `apply`; `validate` parses the text as a `Config` and validates it.
  unfoldable pub apply : (Text → Result Text (Unit {0})) → Text → Form → Result Text Text
  unfolding edit
  apply validate text form = do
    d ← malformed (doc.parse_text text)
    d' ← edit form (settings m) d
    checked validate (doc.print d')

  -- `save`: what the file holds behind it, or the error that left it as it was.
  unfoldable pub save : (Text → Result Text (Unit {0})) → Text → SaveIo → Form → Result Text Text
  unfolding apply
  save validate defaults io form = do
    text ← about_file io.path (old_text defaults io.found)
    out ← apply validate text form
    _ ← about_file io.dir io.dir_made
    _ ← about_file io.path io.written
    _ ← about_file io.path io.renamed
    ok out
