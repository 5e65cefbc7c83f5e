-- ===== src/Desktop.antt =====
-- The display server as the daemon sees it: the `Desktop` trait of crates/daemon/src/desktop.rs, with
-- the paste keystroke of crates/daemon/src/inject.rs, over any state that its tools act on.
pub mod Adapters
use whispy.Base.{
  Bool, ◌||◌, Option, none, some, List, [], ◌≡◌, Result, ok, err, list_eq, starts_with, map,
  if◌then◌else◌,
}
use whispy.Pipeline.{contains}
use whispy.Text.Utf8.{from_utf8_lossy}
use whispy.Text.{Text, Bytes, codes, to_ascii_lowercase}

-- What a tool's run comes to: it could not be run, or its exit status, and whether it is a success.
pub data Exit : Type 0 where
  not_run : Text → Exit
  exited : Text → Bool → Exit

pub record Desktop (S : Type 0) : Type 0 where
  pub type_text : Text → S → S × Result Text (Unit {0})
  pub top_mime_type : S → Option Text
  pub read_clipboard : Text → S → Result Text Bytes
  pub copy_clipboard : Option Text → Bytes → S → S × Result Text (Unit {0})
  pub clear_clipboard : S → S × Result Text (Unit {0})
  -- `ydotool key` with the key tokens.
  pub press_keys : List Text → S → S × Exit
  -- What goes on while the daemon waits.
  pub wait : S → S

-- `mime_is_text`.
unfoldable pub mime_is_text : Text → Bool
mime_is_text mime =
    let lower = map to_ascii_lowercase mime in
    starts_with lower (codes "text/")
    || list_eq lower (codes "string")
    || list_eq lower (codes "utf8_string")
    || contains lower (codes "text")

abbrev lossy_or_empty : Result Text Bytes → Text
lossy_or_empty (ok bytes) = from_utf8_lossy bytes
lossy_or_empty (err _) = []

-- The trait's own `clipboard_text`.
unfoldable pub clipboard_text : {S : Type 0} → Desktop S → S → Text
unfolding mime_is_text
clipboard_text d s = elim (d.top_mime_type s) [
  | none ↦ []
  | some mime ↦ if mime_is_text mime then lossy_or_empty (d.read_clipboard mime s) else []
]

-- What a clipboard promises: it shows what it showed before once that is copied back, and nothing once
-- it is cleared.
pub record Faithful {S : Type 0} (d : Desktop S) : Type 0 where
  pub copied :
      (mime : Text) (bytes : Bytes) (before s : S)
      → d.top_mime_type before ≡ some mime
      → d.read_clipboard mime before ≡ ok bytes
      → (d.copy_clipboard (some mime) bytes s).1 ≡ ok tt
      → (d.top_mime_type (d.copy_clipboard (some mime) bytes s).0 ≡ some mime)
        × (d.read_clipboard mime (d.copy_clipboard (some mime) bytes s).0 ≡ ok bytes)
  pub cleared :
      (s : S) → (d.clear_clipboard s).1 ≡ ok tt → d.top_mime_type (d.clear_clipboard s).0 ≡ none
