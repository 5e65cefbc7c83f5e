-- ===== src/Desktop/Adapters.antt =====
-- The adapters of crates/daemon/src/desktop.rs, over the tools that they run.
use whispy.Base.{
  Bool, true, false, not, Option, none, some, List, [], ◌∷◌, ◌++◌, find, map, if◌then◌else◌, Result,
  ok, err, list_eq,
}
use whispy.Desktop.{Desktop, Exit, not_run, exited}
use whispy.Display.{DisplayServer}
use whispy.Host.{Probe, x11_clipboard}
use whispy.Json.{
  Json, array, object, Items, nil, cons, Fields, end, field, get, as_str, as_bool, text_is,
}
use whispy.Text.Split.{lines}
use whispy.Text.Utf8.{from_utf8_lossy}
use whispy.Text.Words.{is_empty}
use whispy.Text.{Text, Bytes, codes, trim}

-- What `proc::output` gives: an error, or the status, whether it is a success, and the output.
pub data Output : Type 0 where
  failed : Text → Output
  ended : Text → Bool → Bytes → Output

-- The tools, by name and arguments: read from, fed on their input, and run.
pub record Tools (S : Type 0) : Type 0 where
  pub output : Text → List Text → S → Output
  pub feed : Text → List Text → Bytes → S → S × Exit
  pub status : Text → List Text → S → S × Exit
  pub parse_json : Bytes → Option Json
  pub press_keys : List Text → S → S × Exit
  pub wait : S → S

-- `X11Clip`.
pub data X11Clip : Type 0 where
  xclip xsel no_clip : X11Clip

-- `pick_x11_clip`.
unfoldable pub pick_x11_clip : Bool → Bool → X11Clip
pick_x11_clip have_xclip have_xsel =
    if have_xclip then xclip else if have_xsel then xsel else no_clip

-- `X11Desktop::detect`.
unfoldable pub detect : Probe → X11Clip
unfolding pick_x11_clip x11_clipboard
detect probe =
    let found = x11_clipboard probe in
    pick_x11_clip (text_is (codes "xclip") found) (text_is (codes "xsel") found)

-- `non_empty`.
abbrev pub non_empty : Text → Option Text
non_empty [] = none
non_empty (c ∷ s) = some (c ∷ s)

-- `run_capture`, of the output.
abbrev pub captured : Text → Output → Result Text Bytes
captured program (failed e) = err (codes "failed to run " ++ (program ++ (codes ": " ++ e)))
captured program (ended status false out) = err (program ++ (codes " exited with " ++ status))
captured program (ended status true out) = ok out

-- What `feed_stdin` and the other runs make of an exit.
abbrev pub judged : Text → Text → Exit → Result Text (Unit {0})
judged cannot name (not_run e) = err (cannot ++ e)
judged cannot name (exited status false) = err (name ++ (codes " exited with " ++ status))
judged cannot name (exited status true) = ok tt

abbrev pub cannot_run : Text → Text
cannot_run name = codes "failed to run " ++ (name ++ codes ": ")

abbrev pub typed : Text → Exit → Result Text (Unit {0})
typed name (not_run e) = err (
    codes "failed to run "
    ++ (name ++ (codes " (" ++ (e ++ (codes "); is " ++ (name ++ codes " installed?"))))))
typed name (exited status false) = err (name ++ (codes " exited with " ++ status))
typed name (exited status true) = ok tt

abbrev pub no_tool : Text
no_tool = codes "no X11 clipboard tool (install xclip or xsel)"

-- The first line of a text with something in it.
abbrev pub first_line : Text → Option Text
first_line text = find (λ l. not (is_empty l)) (map trim (lines text))

abbrev pub top_of : Result Text Bytes → Option Text
top_of (err e) = none
top_of (ok bytes) = first_line (from_utf8_lossy bytes)

abbrev pub untyped_top : Result Text Bytes → Option Text
untyped_top (err e) = none
untyped_top (ok []) = none
untyped_top (ok (b ∷ bytes)) = some (codes "UTF8_STRING")

abbrev pub type_args : Option Text → List Text
type_args none = []
type_args (some mime) = codes "--type" ∷ mime ∷ []

-- `focused_node`.
unfoldable mutual
  pub focused_node : Json → Option Fields
  focused_node (object fs) =
      let nodes = focused_under (codes "nodes") fs in
      let floating = focused_under (codes "floating_nodes") fs in
      elim (as_bool (get (codes "focused") fs)) [
        | some true ↦ some fs
        | _ ↦ elim nodes [ some n ↦ some n | none ↦ floating ]
      ]
  focused_node _ = none

  focused_under : Text → Fields → Option Fields
  focused_under key end = none
  focused_under key (field k v rest) =
      let here = focused_in v in
      let there = focused_under key rest in if list_eq k key then here else there

  focused_in : Json → Option Fields
  focused_in (array items) = focused_among items
  focused_in _ = none

  focused_among : Items → Option Fields
  focused_among nil = none
  focused_among (cons v rest) =
      let here = focused_node v in
      let there = focused_among rest in elim here [ some n ↦ some n | none ↦ there ]

abbrev pub class_in : Option Json → Option Text
class_in (some (object wp)) = as_str (get (codes "class") wp)
class_in _ = none

-- The class of a sway node.
abbrev pub node_class : Fields → Option Text
node_class node = elim (as_str (get (codes "app_id") node)) [
  | some (c ∷ s) ↦ some (c ∷ s)
  | _ ↦ class_in (get (codes "window_properties") node)
]

abbrev pub and_then : {A B : Type 0} → Option A → (A → Option B) → Option B
and_then none f = none
and_then (some x) f = f x

abbrev pub stdout_of : Output → Option Bytes
stdout_of (ended status true out) = some out
stdout_of _ = none

module _ {S : Type 0} (t : Tools S) where
  abbrev pub run_capture : Text → List Text → S → Result Text Bytes
  run_capture program args s = captured program (t.output program args s)

  -- `feed_stdin`.
  abbrev pub feed_stdin : Text → List Text → Bytes → S → S × Result Text (Unit {0})
  feed_stdin name args bytes s =
      let (s1, exit) = t.feed name args bytes s in (s1, judged (cannot_run name) name exit)

  -- `hyprctl_class`.
  unfoldable pub hyprctl_class : S → Option Text
  hyprctl_class s =
      and_then (stdout_of (t.output (codes "hyprctl") (codes "activewindow" ∷ codes "-j" ∷ []) s))
        (λ out. and_then (t.parse_json out) (λ v. and_then (class_in (some v)) non_empty))

  -- `swaymsg_class`.
  unfoldable pub swaymsg_class : S → Option Text
  unfolding focused_node
  swaymsg_class s =
      and_then (stdout_of (t.output (codes "swaymsg") (codes "-t" ∷ codes "get_tree" ∷ []) s))
        (λ out.
          and_then (t.parse_json out)
            (λ tree. and_then (focused_node tree) (λ node. and_then (node_class node) non_empty)))

  -- `window_class`.
  unfoldable pub window_class : DisplayServer → S → Option Text
  unfolding hyprctl_class swaymsg_class
  window_class DisplayServer.wayland s = elim (hyprctl_class s) [
    | some c ↦ some c
    | none ↦ swaymsg_class s
  ]
  window_class DisplayServer.x11 s =
      and_then
        (stdout_of (
          t.output (codes "xdotool") (codes "getactivewindow" ∷ codes "getwindowclassname" ∷ []) s))
        (λ out. non_empty (trim (from_utf8_lossy out)))

  -- `WaylandDesktop`.
  unfoldable pub wayland_desktop : Desktop S
  wayland_desktop = record {
    type_text = λ text s.
        let (s1, exit) = t.status (codes "wtype") (codes "--" ∷ text ∷ []) s in
        (s1, typed (codes "wtype") exit);
    top_mime_type = λ s. top_of (run_capture (codes "wl-paste") (codes "--list-types" ∷ []) s);
    read_clipboard =
        λ mime. run_capture (codes "wl-paste") (codes "--no-newline" ∷ codes "--type" ∷ mime ∷ []);
    copy_clipboard = λ mime. feed_stdin (codes "wl-copy") (type_args mime);
    clear_clipboard = λ s.
        let (s1, exit) = t.status (codes "wl-copy") (codes "--clear" ∷ []) s in
        (s1, judged (cannot_run (codes "wl-copy")) (codes "wl-copy --clear") exit);
    press_keys = t.press_keys;
    wait = t.wait;
  }

  -- `clipboard_text` of `WaylandDesktop`.
  unfoldable pub wayland_clipboard_text : S → Text
  wayland_clipboard_text s =
      elim (stdout_of (t.output (codes "wl-paste") (codes "--no-newline" ∷ []) s)) [
        | none ↦ []
        | some out ↦ from_utf8_lossy out
      ]

  abbrev pub read_x11 : X11Clip → S → Result Text Bytes
  read_x11 xclip =
      run_capture (codes "xclip") (codes "-selection" ∷ codes "clipboard" ∷ codes "-o" ∷ [])
  read_x11 xsel = run_capture (codes "xsel") (codes "--clipboard" ∷ codes "--output" ∷ [])
  read_x11 no_clip = λ s. err no_tool

  abbrev pub copy_x11 : X11Clip → Bytes → S → S × Result Text (Unit {0})
  copy_x11 xclip bytes s =
      feed_stdin (codes "xclip") (codes "-selection" ∷ codes "clipboard" ∷ []) bytes s
  copy_x11 xsel bytes s =
      feed_stdin (codes "xsel") (codes "--clipboard" ∷ codes "--input" ∷ []) bytes s
  copy_x11 no_clip bytes s = (s, err no_tool)

  abbrev pub clear_x11 : X11Clip → S → S × Result Text (Unit {0})
  clear_x11 xclip s = feed_stdin (codes "xclip") (codes "-selection" ∷ codes "clipboard" ∷ []) [] s
  clear_x11 xsel s =
      let (s1, exit) = t.status (codes "xsel") (codes "--clipboard" ∷ codes "--clear" ∷ []) s in
      (s1, judged (cannot_run (codes "xsel")) (codes "xsel --clear") exit)
  clear_x11 no_clip s = (s, err no_tool)

  abbrev pub top_x11 : X11Clip → S → Option Text
  top_x11 no_clip s = none
  top_x11 picked s = untyped_top (read_x11 picked s)

  -- `X11Desktop`.
  unfoldable pub x11_desktop : X11Clip → Desktop S
  x11_desktop clip = record {
    type_text = λ text s.
        let (s1, exit) =
          t.status (codes "xdotool")
            (codes "type" ∷ codes "--clearmodifiers" ∷ codes "--" ∷ text ∷ []) s in
        (s1, typed (codes "xdotool") exit);
    top_mime_type = top_x11 clip;
    read_clipboard = λ mime s. read_x11 clip s;
    copy_clipboard = λ mime bytes s. copy_x11 clip bytes s;
    clear_clipboard = clear_x11 clip;
    press_keys = t.press_keys;
    wait = t.wait;
  }

  -- `connect`.
  unfoldable pub connect : Probe → DisplayServer → Desktop S
  unfolding wayland_desktop x11_desktop detect
  connect probe DisplayServer.wayland = wayland_desktop
  connect probe DisplayServer.x11 = x11_desktop (detect probe)
