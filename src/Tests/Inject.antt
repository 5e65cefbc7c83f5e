-- ===== src/Tests/Inject.antt =====
-- Pasting on a concrete clipboard: crates/daemon/src/inject.rs.
use whispy.Base.{inl, false, some, none, Option, [], ◌∷◌, ◌≡◌, ◌≢◌, ◌⊎◌, refl, ok, err, true}
use whispy.Desktop.Adapters.{Tools, ended, xsel, x11_desktop, read_x11, focused_node}
use whispy.Inject.OnX11.{Selects, x11_paste_restores}
use whispy.Json.{object, array, field, end, cons, nil, boolean}
use whispy.Desktop.{Desktop, Faithful, exited, mime_is_text}
use whispy.Inject.Restore.{
  Shows, Failure, copied_state, pressed_state, paste_text_restores, paste_text_fails,
}
use whispy.Inject.{InjectError, paste_text, new, paste}
use whispy.Text.{Text, Bytes, codes}

-- A clipboard of one entry, with tools that always succeed.
abbrev Board : Type 0
Board = Option (Text × Bytes)

abbrev top : Board → Option Text
top none = none
top (some (mime, _)) = some mime

abbrev contents : Text → Board → Bytes
contents _ none = []
contents _ (some (_, bytes)) = bytes

abbrev copy_as : Option Text → Bytes → Board
copy_as none bytes = some (codes "text/plain", bytes)
copy_as (some mime) bytes = some (mime, bytes)

abbrev board : Desktop Board
board = record {
  type_text = λ _ s. (s, ok tt);
  top_mime_type = top;
  read_clipboard = λ mime s. ok (contents mime s);
  copy_clipboard = λ mime bytes s. (copy_as mime bytes, ok tt);
  clear_clipboard = λ s. (none, ok tt);
  press_keys = λ keys s. (s, exited (codes "0") true);
  wait = λ s. s;
}

abbrev old : Board
old = some (codes "text/html", codes "old")

board-Faithful : Faithful board
board-Faithful = record {
  copied = λ mime bytes before s h k l. (refl, refl);
  cleared = λ s h. refl;
}

paste_text_restores_example :
    Shows board
      (codes "text/html")
      (codes "old")
      (paste_text board (codes "29:1" ∷ []) (codes "hello") old).0
unfolding mime_is_text paste_text
paste_text_restores_example =
    paste_text_restores board (codes "29:1" ∷ []) (codes "hello") (codes "text/html") (codes "old")
      old board-Faithful refl (refl, refl) refl refl

paste_text_fails_example :
    ((e : InjectError)
      → (paste_text board [] (codes "hello") old).1 ≡ err e
      → Failure board [] (codes "hello") old
        × (((paste_text board [] (codes "hello") old).0 ≡ old)
            ⊎ ((paste_text board [] (codes "hello") old).0 ≡ copied_state board (codes "hello") old)
            ⊎ ((paste_text board [] (codes "hello") old).0
                ≡ pressed_state board [] (codes "hello") old)))
    × (Failure board [] (codes "hello") old → (paste_text board [] (codes "hello") old).1 ≢ ok tt)
paste_text_fails_example = paste_text_fails board [] (codes "hello") old

-- Before the restoration, the transcript was on the clipboard.
transcript_copied :
    Shows board (codes "text/plain") (codes "hi") (copied_state board (codes "hi") old)
unfolding whispy.Text.Encode.as_bytes
transcript_copied = (refl, refl)

split_keys : (new paste (codes "29:1 29:0")).paste_keys ≡ codes "29:1" ∷ codes "29:0" ∷ []
unfolding new whispy.Text.Words.split_whitespace whispy.Text.is_whitespace
split_keys = refl

-- A selection of bytes, with tools that always succeed.
abbrev selection : Tools Bytes
selection = record {
  output = λ program args s. ended (codes "exit status: 0") true s;
  feed = λ program args bytes s. (bytes, exited (codes "exit status: 0") true);
  status = λ program args s. ([], exited (codes "exit status: 0") true);
  parse_json = λ bytes. none;
  press_keys = λ keys s. (s, exited (codes "exit status: 0") true);
  wait = λ s. s;
}

selection-Selects : Selects selection
selection-Selects = record {
  xclip_holds = λ b bytes s h. refl;
  xclip_empties = λ s h. inl refl;
  xsel_holds = λ b bytes s h. refl;
  xsel_empties = λ s h. inl refl;
}

x11_paste_restores_example :
    read_x11 selection xsel
      (paste_text (x11_desktop selection xsel) (codes "29:1" ∷ []) (codes "hello") (codes "old")).0
    ≡ ok (codes "old")
unfolding paste_text x11_desktop
x11_paste_restores_example =
    x11_paste_restores selection selection-Selects xsel (codes "29:1" ∷ []) (codes "hello")
      (codes "old") (codes "old") (λ h. cc) refl refl refl

-- A focused node two levels down, in a floating container.
sway_focus :
    focused_node (
      object (
        field
          (codes "floating_nodes")
          (array (cons (object (field (codes "focused") (boolean true) end)) nil))
          (field (codes "focused") (boolean false) end)))
    ≡ some (field (codes "focused") (boolean true) end)
unfolding focused_node
sway_focus = refl
