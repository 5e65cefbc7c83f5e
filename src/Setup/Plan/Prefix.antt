-- ===== src/Setup/Plan/Prefix.antt =====
-- The setup goes through a fixed plan and stops at the first error: `full` of
-- crates/daemon/src/setup.rs.
use whispy.Base.{
  Bool, true, false, ◌&&◌, ◌||◌, not, List, [], ◌∷◌, ◌++◌, ◌≡◌, refl, if◌then◌else◌, Result, ok,
  err, Bool-cases, inl, inr,
}
use whispy.Display.{DisplayServer}
use whispy.Setup.Plan.{
  Step, SetupArgs, Machine, Done, take_step, on_taken, or_wayland, engine_step, is_wayland,
  is_omarchy_lua, pick, finish_up, install_pill, install_units, full, download_model, setup_ydotool,
  install_config, install_ydotoold, install_systemd, install_quickshell, install_omarchy_widget,
  print_next_steps,
}
use whispy.Text.{Text}

-- A step that is taken on a condition.
abbrev pub when : Bool → Step → List Step
when true s = s ∷ []
when false s = []

-- What a setup is to do that meets no error.
abbrev pub plan : Machine → SetupArgs → List Step
plan m args =
    let server = or_wayland m.server in
    engine_step m.engine
    ∷ download_model
    ∷ (when (not args.no_ydotool) setup_ydotool
        ++ (install_config
            ∷ (when (not args.no_systemd) install_ydotoold
                ++ (when (not args.no_systemd) install_systemd
                    ++ (when (is_wayland server && (args.quickshell || m.has_quickshell))
                          (install_quickshell (not args.no_pill))
                        ++ when (is_wayland server && is_omarchy_lua (pick m.omarchy m.lua_config))
                            install_omarchy_widget)))))

-- Steps one behind the other, up to the first error, and the end of a setup that meets none.
unfoldable pub follow : Machine → List Step → List Step → Done
follow m [] taken = (print_next_steps ∷ Step.verify ∷ taken, ok tt)
follow m (s ∷ ss) taken = on_taken (s ∷ taken) (m.takes s) (follow m ss)

on_taken_with :
    (taken : List Step) (r : Result Text (Unit {0})) (f g : List Step → Done)
    → ((t : List Step) → f t ≡ g t)
    → on_taken taken r f ≡ on_taken taken r g
on_taken_with taken (err e) f g h = refl
on_taken_with taken (ok _) f g h = h taken

module _ (m : Machine) (args : SetupArgs) where
  take_with :
      (s : Step) (taken : List Step) (f g : List Step → Done)
      → ((t : List Step) → f t ≡ g t)
      → take_step m s taken f ≡ on_taken (s ∷ taken) (m.takes s) g
  take_with s taken f g h = on_taken_with (s ∷ taken) (m.takes s) f g h

  abbrev widget : DisplayServer → List Step
  widget server =
      when (is_wayland server && is_omarchy_lua (pick m.omarchy m.lua_config))
        install_omarchy_widget

  abbrev pill : DisplayServer → List Step
  pill server =
      when (is_wayland server && (args.quickshell || m.has_quickshell))
        (install_quickshell (not args.no_pill))
      ++ widget server

  abbrev units : List Step
  units =
      when (not args.no_systemd) install_ydotoold
      ++ (when (not args.no_systemd) install_systemd ++ pill (or_wayland m.server))

  finish_up-follow :
      (server : DisplayServer) (t : List Step) → finish_up m server t ≡ follow m (widget server) t
  unfolding finish_up follow
  finish_up-follow server t =
      elim (Bool-cases (is_wayland server && is_omarchy_lua (pick m.omarchy m.lua_config))) [
        | inl widgets ↦ rw widgets refl
        | inr none_of_it ↦ rw none_of_it refl
      ]

  install_pill-follow :
      (server : DisplayServer) (t : List Step)
      → install_pill m args server t ≡ follow m (pill server) t
  unfolding install_pill follow
  install_pill-follow DisplayServer.x11 t = finish_up-follow DisplayServer.x11 t
  install_pill-follow DisplayServer.wayland t =
      elim (Bool-cases (args.quickshell || m.has_quickshell)) [
        | inl wanted ↦ rw wanted (
            take_with (install_quickshell (not args.no_pill)) t (finish_up m DisplayServer.wayland)
              (follow m (widget DisplayServer.wayland)) (finish_up-follow DisplayServer.wayland))
        | inr unwanted ↦ rw unwanted (finish_up-follow DisplayServer.wayland t)
      ]

  install_units-follow : (t : List Step) → install_units m args t ≡ follow m units t
  unfolding install_units follow
  install_units-follow t = elim (Bool-cases args.no_systemd) [
    | inl skipped ↦ simp skipped (install_pill-follow (or_wayland m.server) t)
    | inr installed ↦
        let server = or_wayland m.server in
        simp installed (
          take_with install_ydotoold t
            (λ t1. take_step m install_systemd t1 (install_pill m args server))
            (λ t1.
              on_taken (install_systemd ∷ t1) (m.takes install_systemd) (follow m (pill server)))
            (λ t1.
              take_with install_systemd t1 (install_pill m args server) (follow m (pill server))
                (install_pill-follow server)))
  ]

  configured-follow :
      (t : List Step)
      → take_step m install_config t (install_units m args) ≡ follow m (install_config ∷ units) t
  unfolding follow
  configured-follow t =
      take_with install_config t (install_units m args) (follow m units) install_units-follow

  abbrev configured : List Step → Done
  configured t = take_step m install_config t (install_units m args)

  ydotool-follow :
      (t : List Step)
      → (if args.no_ydotool then configured t else take_step m setup_ydotool t configured)
        ≡ follow m (when (not args.no_ydotool) setup_ydotool ++ (install_config ∷ units)) t
  unfolding follow
  ydotool-follow t = elim (Bool-cases args.no_ydotool) [
    | inl skipped ↦ simp skipped (configured-follow t)
    | inr installed ↦
        simp installed (
          take_with setup_ydotool t configured (follow m (install_config ∷ units))
            configured-follow)
  ]

-- A full setup looks at the machine, and then takes the steps of its plan in order: each one only behind
-- the success of all before it, none of them left out, and with the error of the first that fails
-- for its own. The flags and the machine decide what is in the plan, and nothing else.
pub full-plan :
    (m : Machine) (args : SetupArgs) → full m args [] ≡ follow m (plan m args) (Step.doctor ∷ [])
unfolding full follow
full-plan m args =
    take_with m args (engine_step m.engine) (Step.doctor ∷ []) _ _
      (λ t1. take_with m args download_model t1 _ _ (λ t2. ydotool-follow m args t2))
