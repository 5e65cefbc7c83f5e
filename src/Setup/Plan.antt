-- ===== src/Setup/Plan.antt =====
-- The order of the setup: `run` and `full` of crates/daemon/src/setup.rs. What a step comes to is an
-- argument; each that is taken is listed, the newest first.
pub mod Prefix
use whispy.Base.{
  Bool, true, false, ◌&&◌, ◌||◌, not, Option, none, some, List, [], ◌∷◌, if◌then◌else◌, Result, ok,
  err,
}
use whispy.Display.{DisplayServer}
use whispy.Engine.{Engine}
use whispy.Inject.{InjectMode, paste, type}
use whispy.Text.{Text, codes}

-- The steps: `doctor`, `build_whisper`, `install_stt`, `download_model`, `setup_ydotool`,
-- `install_config`, `install_ydotoold`, `install_systemd`, `install_quickshell`,
-- `install_omarchy_widget`, `verify` and `print_keybinds`.
pub data Step : Type 0 where
  doctor build_whisper install_stt download_model setup_ydotool install_config : Step
  install_ydotoold install_systemd install_omarchy_widget verify print_keybinds print_next_steps :
      Step
  install_quickshell : Bool → Step

-- `SetupStep`.
pub data SetupStep : Type 0 where
  doctor whisper stt model ydotool systemd quickshell omarchy verify keybinds : SetupStep

-- `SetupArgs`.
pub record SetupArgs : Type 0 where
  pub step : Option SetupStep
  pub quickshell : Bool
  pub no_ydotool : Bool
  pub no_systemd : Bool
  pub no_pill : Bool

-- `HyprConfig`.
pub data HyprConfig : Type 0 where
  omarchy_lua omarchy_conf lua conf : HyprConfig

-- `HyprConfig::pick`.
unfoldable pub pick : Bool → Bool → HyprConfig
pick true true = omarchy_lua
pick true false = omarchy_conf
pick false true = lua
pick false false = conf

-- `HyprConfig::label`.
unfoldable pub label : HyprConfig → Text
label omarchy_lua = codes "Omarchy 4 (~/.config/hypr/bindings.lua)"
label omarchy_conf = codes "Omarchy 3 (~/.config/hypr/bindings.conf)"
label lua = codes "Hyprland Lua config (~/.config/hypr/hyprland.lua)"
label conf = codes "Hyprland (~/.config/hypr/hyprland.conf)"

-- `InjectMode::needs_ydotoold`.
unfoldable pub needs_ydotoold : InjectMode → Bool
needs_ydotoold paste = true
needs_ydotoold type = false

-- What the setup finds on the machine.
pub record Machine : Type 0 where
  pub engine : Engine
  pub server : Option DisplayServer
  pub has_quickshell : Bool
  pub omarchy : Bool
  pub lua_config : Bool
  pub takes : Step → Result Text (Unit {0})

-- The steps that were taken, and the result.
abbrev pub Done : Type 0
Done = List Step × Result Text (Unit {0})

abbrev pub logged : Step → List Step → Result Text (Unit {0}) → Done
logged s taken r = (s ∷ taken, r)

-- A step that cannot fail, and one whose error ends the setup, with what comes next.
abbrev pub on_taken : List Step → Result Text (Unit {0}) → (List Step → Done) → Done
on_taken taken (err e) rest = (taken, err e)
on_taken taken (ok _) rest = rest taken

abbrev pub take_step : Machine → Step → List Step → (List Step → Done) → Done
take_step m s taken rest = on_taken (s ∷ taken) (m.takes s) rest

-- `resolve_from_env(..).unwrap_or(Wayland)`.
abbrev pub or_wayland : Option DisplayServer → DisplayServer
or_wayland none = DisplayServer.wayland
or_wayland (some s) = s

abbrev pub engine_step : Engine → Step
engine_step Engine.parakeet = install_stt
engine_step Engine.whisper = build_whisper

abbrev pub is_wayland : DisplayServer → Bool
is_wayland DisplayServer.wayland = true
is_wayland DisplayServer.x11 = false

abbrev pub is_omarchy_lua : HyprConfig → Bool
is_omarchy_lua omarchy_lua = true
is_omarchy_lua _ = false

-- The end of `full`: from the Omarchy widget on.
unfoldable pub finish_up : Machine → DisplayServer → List Step → Done
unfolding pick
finish_up m server taken =
    let last : List Step → Done = λ t. (print_next_steps ∷ Step.verify ∷ t, ok tt) in
    if is_wayland server && is_omarchy_lua (pick m.omarchy m.lua_config)
    then take_step m install_omarchy_widget taken last
    else last taken

-- The middle of `full`: the pill.
unfoldable pub install_pill : Machine → SetupArgs → DisplayServer → List Step → Done
unfolding finish_up
install_pill m args server taken =
    if not (is_wayland server)
    then finish_up m server taken
    else if args.quickshell || m.has_quickshell
    then take_step m (install_quickshell (not args.no_pill)) taken (finish_up m server)
    else finish_up m server taken

-- The user services.
unfoldable pub install_units : Machine → SetupArgs → List Step → Done
unfolding install_pill
install_units m args taken =
    let server = or_wayland m.server in
    if args.no_systemd
    then install_pill m args server taken
    else take_step m install_ydotoold taken
        (λ t. take_step m install_systemd t (install_pill m args server))

-- `full`.
unfoldable pub full : Machine → SetupArgs → List Step → Done
unfolding install_units
full m args taken = take_step m (engine_step m.engine) (Step.doctor ∷ taken) (λ t1.
    take_step m download_model t1 (λ t2.
      let configured : List Step → Done =
        λ t. take_step m install_config t (install_units m args) in
      if args.no_ydotool then configured t2 else take_step m setup_ydotool t2 configured))

abbrev pub only : Machine → Step → Done
only m s = (s ∷ [], m.takes s)

abbrev pub shows : Step → Done
shows s = (s ∷ [], ok tt)

abbrev pub chosen_step : Machine → SetupArgs → SetupStep → Done
chosen_step m args SetupStep.doctor = shows Step.doctor
chosen_step m args whisper = only m build_whisper
chosen_step m args stt = only m install_stt
chosen_step m args model = only m download_model
chosen_step m args ydotool = only m setup_ydotool
chosen_step m args systemd =
    take_step m install_config [] (λ t. (install_systemd ∷ t, m.takes install_systemd))
chosen_step m args quickshell = only m (install_quickshell (not args.no_pill))
chosen_step m args omarchy = only m install_omarchy_widget
chosen_step m args SetupStep.verify = shows Step.verify
chosen_step m args keybinds = shows print_keybinds

-- `run`, up to its exit code.
unfoldable pub run : Machine → SetupArgs → Done
unfolding full
run m args = elim args.step [ none ↦ full m args [] | some s ↦ chosen_step m args s ]
