-- ===== src/Host.antt =====
-- What the host has to provide: crates/daemon/src/host.rs, over its trait `Probe`.
pub mod Verdicts
use whispy.Base.{
  ℕ, Bool, true, false, ◌&&◌, ◌||◌, not, Option, none, some, List, [], ◌∷◌, ◌++◌, map, any, find,
  filter, is_some, ◌==◌, if◌then◌else◌, Result, ok, err,
}
use whispy.Choice.{ComputeBackend}
use whispy.Display.{DisplayServer}
use whispy.Inject.{InjectMode, paste, type}
use whispy.Text.Words.{is_empty, join}
use whispy.Text.{Text, codes}

-- `Probe`.
pub record Probe : Type 0 where
  pub command : Text → Bool
  pub library : Text → Bool
  pub header : Text → Bool

-- `Check`.
pub record Check : Type 0 where
  pub name : Text
  pub note : Text
  pub is_met : Bool

-- `Need`, `Alternative` and `Requirement`.
pub data Need : Type 0 where
  command header : Text → Need

pub record Alternative : Type 0 where
  pub name : Text
  pub need : Need

pub record Requirement : Type 0 where
  pub any_of : List Alternative
  pub note : Text

abbrev pub has : Probe → Need → Bool
has probe (command c) = probe.command c
has probe (header h) = probe.header h

abbrev pub preferred : List Alternative → Text
preferred [] = []
preferred (a ∷ rest) = a.name

abbrev pub found_name : Text → Option Alternative → Text
found_name first none = first
found_name first (some a) = a.name

-- `Requirement::check`.
unfoldable pub check : Probe → Requirement → Check
check probe r =
    let found = find (λ (a : Alternative). has probe a.need) r.any_of in
    record { name = found_name (preferred r.any_of) found; note = r.note; is_met = is_some found }

-- `cmd`.
abbrev pub cmd : Text → Alternative
cmd name = record { name = name; need = command name }

abbrev pub tool : Text → Text → Requirement
tool name note = record { any_of = cmd name ∷ []; note = note }

-- The requirements.
abbrev pub pw_record : Requirement
pw_record = tool (codes "pw-record") (codes "PipeWire audio capture")

abbrev pub ydotool : Requirement
ydotool = tool (codes "ydotool") (codes "paste keystroke injection (both servers)")

abbrev pub notify_send : Requirement
notify_send = tool (codes "notify-send") (codes "error/status notifications (libnotify)")

abbrev pub wl_copy : Requirement
wl_copy = tool (codes "wl-copy") (codes "clipboard write (wl-clipboard)")

abbrev pub wl_paste : Requirement
wl_paste = tool (codes "wl-paste") (codes "clipboard read (wl-clipboard)")

abbrev pub wtype : Requirement
wtype = tool (codes "wtype") (codes "direct typing (injection.mode = type)")

abbrev pub x11_tools : Requirement
x11_tools = record {
  any_of = cmd (codes "xclip") ∷ cmd (codes "xsel") ∷ [];
  note = codes "clipboard (xclip preferred, or install xsel)";
}

abbrev pub xdotool : Requirement
xdotool = tool (codes "xdotool") (codes "typing + active-window class")

abbrev pub needs_of_server : DisplayServer → InjectMode → List Requirement
needs_of_server DisplayServer.wayland paste = wl_copy ∷ wl_paste ∷ []
needs_of_server DisplayServer.wayland type = wl_copy ∷ wl_paste ∷ wtype ∷ []
needs_of_server DisplayServer.x11 mode = x11_tools ∷ xdotool ∷ []

-- `dictation`.
unfoldable pub dictation : Probe → DisplayServer → InjectMode → List Check
unfolding check
dictation probe server mode =
    map (check probe) (pw_record ∷ ydotool ∷ notify_send ∷ needs_of_server server mode)

-- `x11_clipboard`.
unfoldable pub x11_clipboard : Probe → Option Text
unfolding check
x11_clipboard probe = let c = check probe x11_tools in if c.is_met then some c.name else none

-- `BuildBackend`.
pub data BuildBackend : Type 0 where
  vulkan cpu : BuildBackend

abbrev pub vulkan_loader : Text
vulkan_loader = codes "libvulkan"

-- `resolve_backend`.
unfoldable pub resolve_backend : Probe → ComputeBackend → BuildBackend
resolve_backend probe ComputeBackend.vulkan = vulkan
resolve_backend probe ComputeBackend.auto = if probe.library vulkan_loader then vulkan else cpu
resolve_backend probe ComputeBackend.cpu = cpu

-- `VULKAN_BUILD_DEPS`.
abbrev pub vulkan_build_deps : List Requirement
vulkan_build_deps =
    tool (codes "cmake") (codes "cmake")
    ∷ record {
      any_of = record { name = codes "shaderc"; need = command (codes "glslc") } ∷ [];
      note = codes "the glslc shader compiler";
    }
    ∷ record {
      any_of =
          record { name = codes "vulkan-headers"; need = header (codes "vulkan/vulkan.h") } ∷ [];
      note = codes "Vulkan headers";
    }
    ∷ record {
      any_of =
          record { name = codes "spirv-headers"; need = header (codes "spirv/unified1/spirv.hpp") }
          ∷ [];
      note = codes "SPIR-V headers";
    }
    ∷ []

-- `VulkanBuild`.
pub record VulkanBuild : Type 0 where
  pub loader : Bool
  pub deps : List Check

-- `vulkan_build`.
unfoldable pub vulkan_build : Probe → VulkanBuild
unfolding check
vulkan_build probe = record {
  loader = probe.library vulkan_loader;
  deps = map (check probe) vulkan_build_deps;
}

abbrev pub cpu_hint : Text
cpu_hint = codes "Or set `stt.backend = \"cpu\"` in config.toml for a CPU-only build."

abbrev pub no_loader : Text → Text
no_loader target =
    codes "the Vulkan loader (libvulkan) is missing — the Vulkan build of "
    ++ (target
        ++ (codes
              " needs it.\n  Install it (Arch: `vulkan-icd-loader` + your GPU's ICD, e.g. `vulkan-radeon`), then re-run.\n  "
            ++ cpu_hint))

abbrev pub lacks : Text → List Check → Result Text (Unit {0})
lacks target [] = ok tt
lacks target (c ∷ cs) = err (
    codes "the Vulkan build of "
    ++ (target
        ++ (codes " needs: "
            ++ (join (codes ", ") (map (λ (d : Check). d.note) (c ∷ cs))
                ++ (codes ".\n  Install them (Arch: `sudo pacman -S --needed "
                    ++ (join (codes " ") (map (λ (d : Check). d.name) (c ∷ cs))
                        ++ (codes "`), then re-run.\n  " ++ cpu_hint)))))))

-- `ensure`.
unfoldable pub ensure : VulkanBuild → Text → Result Text (Unit {0})
unfolding join
ensure v target =
    if not v.loader
    then err (no_loader target)
    else lacks target (filter (λ (d : Check). not d.is_met) v.deps)

-- `on_path`; `is_executable` answers for a path, and the dirs are those of `split_paths`.
unfoldable pub on_path : (Text → Bool) → Text → List Text → Bool
on_path is_executable name dirs =
    if is_empty name
    then false
    else if any (λ c. c == b'/') name
    then is_executable name
    else any (λ dir. not (is_empty dir) && is_executable (dir ++ (b'/' ∷ name))) dirs
