-- ===== src/Tests/Settings.antt =====
-- The settings screen, opened, edited and left: crates/daemon/src/settings.
use whispy.Base.{
  ◌&&◌, true, false, Option, some, none, List, [], ◌∷◌, ◌≡◌, refl, arith, ok, list_eq,
  if◌then◌else◌,
}
use whispy.Engine.{parakeet}
use whispy.Inject.{InjectMode}
use whispy.Settings.Clean.{run-IsClean, IsClean, run, press, refreshed, Op}
use whispy.Settings.Editable.{Document, Value, Values, Messages, sections, duration, integer}
use whispy.Settings.Fits.{values_of}
use whispy.Settings.Form.{Section, Form, microphone, history, radio, entries, new, down, select}
use whispy.Text.{Text, codes}

abbrev microphones_here : Section
microphones_here = record {
  key = microphone;
  title = codes "Microphone";
  hint = [];
  body =
      radio
        (record { label = codes "Default"; value = []; detail = [] }
          ∷ record { label = codes "USB"; value = codes "usb"; detail = [] }
          ∷ [])
        0;
}

abbrev past : Section
past = record { key = history; title = codes "History"; hint = []; body = entries [] }

abbrev screen : List Section
screen = microphones_here ∷ past ∷ []

abbrev edits : List Op
edits =
    press down
    ∷ press select
    ∷ refreshed (record { accepted = true; reason = none; text = codes "hi" } ∷ [])
    ∷ []

run-IsClean_example :
    (f : Form) × (base : List (Option Text)) × (run edits (new screen, values_of screen)
      ≡ some (f, base))
    × IsClean f base
run-IsClean_example =
    run-IsClean screen edits (omega arith)
      (((omega arith, omega arith), λ h. h), ((omega arith, λ h. refl), tt))

abbrev edited : Form
edited = record {
  sections = screen;
  section = 0;
  cursors = 1 ∷ 0 ∷ [];
  dirty = true;
  quit_armed = false;
}

abbrev armed : Form
armed = record edited { quit_armed = true }

-- A document that is a function, and messages that say nothing.
abbrev plain : Document (Text → Text → Option Value)
plain = record {
  parse_text = λ t. ok (λ table key. none);
  print = λ d. [];
  get = λ table key d. d table key;
  set = λ table key v d table' key'.
      if list_eq table table' && list_eq key key' then some v else d table' key';
  get-set = λ table key table' key' v d. refl;
}

abbrev messages : Messages
messages = record { debug = λ t. t; debug_list = λ ts. []; parse_error = λ t. t }

abbrev configured : Values
configured = record {
  source = codes "gone";
  engine = parakeet;
  language = codes "pt";
  mode = InjectMode.type;
  silence_timeout_ms = 1700;
}

duration_odd : duration messages (codes "1700") ≡ ok (integer 1700)
unfolding duration
duration_odd = refl
