-- ===== src/Host/Verdicts.antt =====
-- What the verdicts of crates/daemon/src/host.rs mean.
use whispy.Base.{
  Bool, true, false, ◌&&◌, not, none, some, List, [], ◌∷◌, map, all, filter, ◌≡◌, ◌∙◌, refl, arith,
  is_some, Result, ok, err, Bool-cases, inl, inr, if◌then◌else◌, find,
}
use whispy.Display.{DisplayServer}
use whispy.Host.{
  Probe, Check, check, dictation, x11_clipboard, vulkan_build, vulkan_loader, ensure,
  needs_of_server, lacks,
}
use whispy.Inject.{InjectMode, paste, type}
use whispy.Text.{Text, codes}

abbrev pub all_met : List Check → Bool
all_met = all (λ (c : Check). c.is_met)

-- What the tools come to, server by server.
abbrev pub can_dictate : Probe → DisplayServer → InjectMode → Bool
can_dictate probe DisplayServer.wayland mode =
    probe.command (codes "wl-copy")
    && probe.command (codes "wl-paste")
    && (elim mode [ paste ↦ true | type ↦ probe.command (codes "wtype") ])
can_dictate probe DisplayServer.x11 mode =
    is_some (x11_clipboard probe) && probe.command (codes "xdotool")

abbrev pub succeeds : Result Text (Unit {0}) → Bool
succeeds (ok _) = true
succeeds (err e) = false

lacks_none :
    (target : Text) (cs : List Check)
    → succeeds (lacks target (filter (λ (d : Check). not d.is_met) cs)) ≡ all_met cs
lacks_none target [] = refl
lacks_none target (c ∷ cs) = elim (Bool-cases c.is_met) [
  | inl met ↦ rw met (lacks_none target cs)
  | inr unmet ↦ rw unmet refl
]

some_if {ℓ} : {A : Type ℓ} (b : Bool) (x : A) → is_some (if b then some x else none) ≡ b
some_if true x = refl
some_if false x = refl

dictation_met :
    (probe : Probe) (server : DisplayServer) (mode : InjectMode)
    → all_met (map (check probe) (needs_of_server server mode)) ≡ can_dictate probe server mode
unfolding x11_clipboard check
dictation_met probe DisplayServer.wayland paste = ground arith
dictation_met probe DisplayServer.wayland type = ground arith
dictation_met probe DisplayServer.x11 mode = ground arith

ensure_met :
    (probe : Probe) (target : Text)
    → succeeds (ensure (vulkan_build probe) target)
      ≡ (probe.library vulkan_loader && all_met (vulkan_build probe).deps)
unfolding ensure vulkan_build
ensure_met probe target = elim (Bool-cases (probe.library vulkan_loader)) [
  | inl there ↦ rw there (lacks_none target (vulkan_build probe).deps)
  | inr gone ↦ rw gone refl
]

-- The doctor and the builds tell the truth about a host: all checks for dictation are met just when
-- the recorder, the keystroke tool, the notifier and the server's own tools are there; on X11 the
-- clipboard check is met just when injection finds a tool to drive, and it is one that is there;
-- and a Vulkan build is let through just when its loader, its tools and its headers are there.
pub verdicts :
    (probe : Probe) (server : DisplayServer) (mode : InjectMode) (target : Text)
    → (all_met (dictation probe server mode) ≡ (
        probe.command (codes "pw-record")
        && probe.command (codes "ydotool")
        && probe.command (codes "notify-send")
        && can_dictate probe server mode))
      × (x11_clipboard probe ≡ find probe.command (codes "xclip" ∷ codes "xsel" ∷ []))
      × (succeeds (ensure (vulkan_build probe) target) ≡ (
          probe.library (codes "libvulkan")
          && probe.command (codes "cmake")
          && probe.command (codes "glslc")
          && probe.header (codes "vulkan/vulkan.h")
          && probe.header (codes "spirv/unified1/spirv.hpp")))
unfolding dictation x11_clipboard vulkan_build ensure check
verdicts probe server mode target = (
  simp (some_if, dictation_met) (ground arith),
  ground arith,
  ensure_met probe target ∙ simp some_if (ground arith),
)
