-- ===== src/Display.antt =====
-- The display server that the daemon drives: crates/daemon/src/display.rs, and when a transition is
-- notified (`NotifyMode::should_notify` of crates/daemon/src/config.rs).
use whispy.Base.{
  Bool, true, false, not, Option, none, some, [], ◌∷◌, ◌≡◌, refl, find, list_eq, if◌then◌else◌,
}
use whispy.Choice.{ConfigChoice, NotifyMode}
use whispy.Text.Words.{is_empty}
use whispy.Text.{Text, codes}

-- `DisplayServer`.
pub data DisplayServer : Type 0 where
  wayland x11 : DisplayServer

-- `Backend`.
pub data Backend : Type 0 where
  auto wayland x11 : Backend

abbrev pub backend_str : Backend → Text
backend_str auto = codes "auto"
backend_str wayland = codes "wayland"
backend_str x11 = codes "x11"

pub backend_back :
    (c : Backend)
    → find
        (λ d. list_eq (backend_str d) (backend_str c))
        (Backend.auto ∷ Backend.wayland ∷ Backend.x11 ∷ [])
      ≡ some c
backend_back auto = refl
backend_back wayland = refl
backend_back x11 = refl

instance abbrev pub backend_choice : ConfigChoice Backend
backend_choice = record {
  all_values = Backend.auto ∷ Backend.wayland ∷ Backend.x11 ∷ [];
  as_str = backend_str;
  parsed_back = backend_back;
}

-- `is_some_and(|s| !s.is_empty())`.
abbrev pub is_set : Option Text → Bool
is_set none = false
is_set (some s) = not (is_empty s)

-- `resolve`.
unfoldable pub resolve : Backend → Option Text → Option Text → Option DisplayServer
resolve wayland wayland_display x_display = some DisplayServer.wayland
resolve x11 wayland_display x_display = some DisplayServer.x11
resolve auto wayland_display x_display =
    if is_set wayland_display
    then some DisplayServer.wayland
    else if is_set x_display
    then some DisplayServer.x11
    else none

-- `should_notify`.
unfoldable pub should_notify : NotifyMode → DisplayServer → Bool
should_notify NotifyMode.auto DisplayServer.wayland = false
should_notify NotifyMode.auto DisplayServer.x11 = true
should_notify NotifyMode.on server = true
should_notify NotifyMode.off server = false
