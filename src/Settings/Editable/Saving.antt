-- ===== src/Settings/Editable/Saving.antt =====
-- `sections` and `apply` of crates/daemon/src/settings/editable.rs with the form and the microphones,
-- for a form that is as it was opened.
use whispy.Base.{Bool, true, ◌&&◌, not, some, List, [], ◌∷◌, ◌≡◌, any, list_eq, ok}
use whispy.Engine.{Engine, engine_choice}
use whispy.Inject.{mode_choice}
use whispy.Settings.Editable.{Values, Value, string, integer, Setting, Messages, Document}
use whispy.Settings.Form.{
  SectionKey, microphone, engine, language, typing, auto_stop, history, Choice, Form, value,
}
use whispy.Text.{Text}

abbrev has : Text → Choice → Bool
has current c = list_eq c.value current

-- What the config file holds for a setting.
abbrev pub stored : Values → SectionKey → Value
stored cfg microphone = string cfg.source
stored cfg engine = string (engine_choice.as_str cfg.engine)
stored cfg language = string cfg.language
stored cfg typing = string (mode_choice.as_str cfg.mode)
stored cfg auto_stop = integer cfg.silence_timeout_ms
stored cfg history = string []

-- A setting whose chosen value is the config's, and is written as the file holds it.
abbrev Ready : Form → Values → Setting → Type 0
Ready form cfg s =
    (value form s.key ≡ some (s.read cfg)) × (s.write (s.read cfg) ≡ ok (stored cfg s.key))

abbrev pub Each : (Setting → Type 0) → List Setting → Type 0
Each P [] = Unit
Each P (s ∷ ss) = P s × Each P ss

module _ {D : Type 0} (doc : Document D) (m : Messages) (cfg : Values) where
  unfoldable set_all : List Setting → D → D
  set_all [] d = d
  set_all (s ∷ ss) d = set_all ss (doc.set s.table s.name (stored cfg s.key) d)

  abbrev places_differ : List Setting → Bool
  places_differ [] = true
  places_differ (s ∷ ss) =
      not (any (λ (s' : Setting). list_eq s'.table s.table && list_eq s'.name s.name) ss)
      && places_differ ss
