-- ===== src/Inject.antt =====
-- Text injection: crates/daemon/src/inject.rs, over the `Desktop` interface.
pub mod Restore
pub mod OnX11
use whispy.Base.{
  Bool, true, false, not, Option, none, some, List, [], ◌∷◌, ◌++◌, if◌then◌else◌, Result, ok, err,
  ◌≡◌, refl, find, list_eq,
}
use whispy.Choice.{ConfigChoice}
use whispy.Desktop.{Desktop, Exit, not_run, exited, mime_is_text}
use whispy.Text.Encode.{as_bytes}
use whispy.Text.Words.{split_whitespace, is_empty}
use whispy.Text.{Text, Bytes, codes}

-- `config::InjectMode`.
pub data InjectMode : Type 0 where
  paste type : InjectMode

abbrev pub mode_str : InjectMode → Text
mode_str paste = codes "paste"
mode_str type = codes "type"

pub mode_back :
    (c : InjectMode) → find (λ d. list_eq (mode_str d) (mode_str c)) (type ∷ paste ∷ []) ≡ some c
mode_back paste = refl
mode_back type = refl

instance abbrev pub mode_choice : ConfigChoice InjectMode
mode_choice = record { all_values = type ∷ paste ∷ []; as_str = mode_str; parsed_back = mode_back }

-- `InjectError`.
pub data InjectError : Type 0 where
  clipboard_failed paste_failed type_failed : Text → InjectError

-- `Saved`.
pub data Saved : Type 0 where
  nothing : Saved
  text_saved : Text → Bytes → Saved
  binary : Text → Saved

-- `Injector`, less the desktop and the delays.
pub record Injector : Type 0 where
  pub mode : InjectMode
  pub paste_keys : List Text

-- `Injector::new`.
unfoldable pub new : InjectMode → Text → Injector
new mode paste_keys = record { mode = mode; paste_keys = split_whitespace paste_keys }

abbrev hint : Text
hint = codes "; is ydotoold running with uinput access? see scripts/setup-ydotool.sh"

module _ {S : Type 0} (d : Desktop S) where
  -- `save_clipboard`.
  unfoldable pub save_clipboard : S → Saved
  unfolding mime_is_text
  save_clipboard s = elim (d.top_mime_type s) [
    | none ↦ nothing
    | some mime ↦
        if not (mime_is_text mime)
        then binary mime
        else elim (d.read_clipboard mime s) [ ok bytes ↦ text_saved mime bytes | err e ↦ nothing ]
  ]

  -- What `paste` makes of the run of `ydotool`.
  unfoldable pub judge_exit : Exit → Result InjectError (Unit {0})
  judge_exit (not_run e) =
      err (paste_failed (codes "failed to run ydotool (" ++ (e ++ (codes ")" ++ hint))))
  judge_exit (exited status true) = ok tt
  judge_exit (exited status false) =
      err (paste_failed (codes "ydotool exited with " ++ (status ++ hint)))

  -- `restore_clipboard`. A failure is logged and otherwise ignored.
  unfoldable pub restore_clipboard : Saved → S → S
  restore_clipboard nothing s = (d.clear_clipboard s).0
  restore_clipboard (text_saved mime bytes) s = (d.copy_clipboard (some mime) bytes s).0
  restore_clipboard (binary mime) s = s

  -- `paste_text`.
  unfoldable pub paste_text : List Text → Text → S → S × Result InjectError (Unit {0})
  unfolding save_clipboard judge_exit restore_clipboard
  paste_text [] text s = (s, err (paste_failed (codes "no paste_keys configured")))
  paste_text (k ∷ ks) text s =
      let saved = save_clipboard s in
      let (s1, copied) = d.copy_clipboard none (as_bytes text) s in
      elim copied [
        | err e ↦ (s1, err (clipboard_failed (codes "copy transcript: " ++ e)))
        | ok _ ↦
            let (s2, exit) = d.press_keys (k ∷ ks) s1 in
            elim (judge_exit exit) [
              | err e ↦ (s2, err e)
              | ok _ ↦ (restore_clipboard saved (d.wait s2), ok tt)
            ]
      ]

  abbrev typed_result : Result Text (Unit {0}) → Result InjectError (Unit {0})
  typed_result (ok x) = ok x
  typed_result (err e) = err (type_failed e)

  -- `inject`.
  unfoldable pub inject : Injector → Text → S → S × Result InjectError (Unit {0})
  unfolding paste_text
  inject i text s = elim i.mode [
    | type ↦ let (s1, r) = d.type_text text s in (s1, typed_result r)
    | paste ↦ paste_text i.paste_keys text s
  ]
