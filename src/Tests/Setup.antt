-- ===== src/Tests/Setup.antt =====
-- A machine that is set up: crates/daemon/src/setup.rs and crates/daemon/src/host.rs.
use whispy.Base.{
  true, false, ◌&&◌, none, some, List, [], ◌∷◌, ◌≡◌, refl, ok, err, find, list_eq, any,
}
use whispy.Display.{DisplayServer}
use whispy.Engine.{Engine}
use whispy.Host.Verdicts.{verdicts, all_met, can_dictate, succeeds}
use whispy.Host.{Probe, dictation, x11_clipboard, ensure, vulkan_build, on_path}
use whispy.Inject.{type}
use whispy.Setup.Download.Whole.{download_model-Ends, Ends}
use whispy.Setup.Download.{World, Files, copied, download_model}
use whispy.Setup.Indicators.Hidden.{without_dictation_indicator_hides, shows}
use whispy.Json.{Json, string, array, object, end, field}
use whispy.Setup.Indicators.{array_of, without_dictation_indicator}
use whispy.Setup.Plan.Prefix.{full-plan, follow, plan}
use whispy.Setup.Plan.{Machine, SetupArgs, Step, full, install_stt, setup_ydotool}
use whispy.Text.{Text, codes}

-- An X11 machine with xsel, and without a recorder.
abbrev probe : Probe
probe = record {
  command = λ c.
      any (list_eq c) (codes "ydotool" ∷ codes "notify-send" ∷ codes "xsel" ∷ codes "xdotool" ∷ []);
  library = λ l. true;
  header = λ h. false;
}

verdicts_example :
    (all_met (dictation probe DisplayServer.x11 type) ≡ (
      probe.command (codes "pw-record")
      && probe.command (codes "ydotool")
      && probe.command (codes "notify-send")
      && can_dictate probe DisplayServer.x11 type))
    × (x11_clipboard probe ≡ find probe.command (codes "xclip" ∷ codes "xsel" ∷ []))
    × (succeeds (ensure (vulkan_build probe) (codes "whispy-stt")) ≡ (
        probe.library (codes "libvulkan")
        && probe.command (codes "cmake")
        && probe.command (codes "glslc")
        && probe.header (codes "vulkan/vulkan.h")
        && probe.header (codes "spirv/unified1/spirv.hpp")))
verdicts_example = verdicts probe DisplayServer.x11 type (codes "whispy-stt")

tool_for_x11 : x11_clipboard probe ≡ some (codes "xsel")
unfolding x11_clipboard
tool_for_x11 = refl

empty_dir : on_path (λ p. true) (codes "date") ([] ∷ []) ≡ false
unfolding on_path
empty_dir = refl

-- A download with a leftover of an earlier one.
abbrev world : World
world = record {
  dest_path = codes "/m/base.bin";
  tmp_path = codes "/m/base.part";
  dir_made = ok tt;
  response = ok (copied (1 ∷ 2 ∷ []) ∷ copied (3 ∷ []) ∷ []);
  created = ok tt;
  flushed = ok tt;
  sha256sum = λ b. ok (true, codes "00AF  /m/base.part");
  debug = λ t. t;
  tmp_removed = true;
  renamed = ok tt;
}

abbrev leftover : Files
leftover = record { dest = none; tmp = some (9 ∷ []) }

model_arrived :
    download_model world (some (codes "00af")) leftover
    ≡ (record { dest = some (1 ∷ 2 ∷ 3 ∷ []); tmp = none }, ok tt)
unfolding download_model whispy.Text.Words.split_whitespace whispy.Text.is_whitespace
model_arrived = refl

download_model-Ends_example :
    Ends world (some (codes "00af")) leftover (download_model world (some (codes "00af")) leftover)
download_model-Ends_example = download_model-Ends world (some (codes "00af")) leftover

-- A machine on which the ydotool step fails.
abbrev machine : Machine
machine = record {
  engine = Engine.parakeet;
  server = some DisplayServer.wayland;
  has_quickshell = true;
  omarchy = true;
  lua_config = true;
  takes = λ s. elim s [ setup_ydotool ↦ err (codes "no sudo") | _ ↦ ok tt ];
}

abbrev no_flags : SetupArgs
no_flags = record {
  step = none;
  quickshell = false;
  no_ydotool = false;
  no_systemd = false;
  no_pill = false;
}

stopped_at_ydotool :
    full machine no_flags []
    ≡ (setup_ydotool ∷ Step.download_model ∷ install_stt ∷ Step.doctor ∷ [], err (codes "no sudo"))
unfolding full
stopped_at_ydotool = refl

full-plan_example :
    full machine no_flags [] ≡ follow machine (plan machine no_flags) (Step.doctor ∷ [])
full-plan_example = full-plan machine no_flags

abbrev ids : List Text
ids = codes "Dictation" ∷ codes "Dnd" ∷ []

abbrev widget : Json
widget = object (field (codes "id") (string (codes "omarchy.indicators")) end)

widget_edited : without_dictation_indicator ids widget ≡ (
  object (
      field
        (codes "id")
        (string (codes "omarchy.indicators"))
        (field (codes "items") (array (array_of (codes "Dnd" ∷ []))) end)),
  true,
)
unfolding without_dictation_indicator
widget_edited = refl

without_dictation_indicator_hides_example :
    ((without_dictation_indicator ids widget).1 ≡ shows ids widget)
    × (shows ids (without_dictation_indicator ids widget).0 ≡ false)
    × ((without_dictation_indicator ids (without_dictation_indicator ids widget).0).1 ≡ false)
unfolding whispy.Setup.Indicators.Hidden.spares
without_dictation_indicator_hides_example = without_dictation_indicator_hides ids widget refl

-- A list of nothing but the indicator becomes an empty one, which shows it again.
abbrev only_it : Json
only_it = object (
    field (codes "id") (string (codes "omarchy.indicators"))
      (field (codes "items") (array (array_of (codes "Dictation" ∷ []))) end))

shown_again : shows ids (without_dictation_indicator ids only_it).0 ≡ true
unfolding shows without_dictation_indicator
shown_again = refl
