-- ===== src/Inject/OnX11.antt =====
-- Pasting on X11: crates/daemon/src/inject.rs over the X11 adapter of crates/daemon/src/desktop.rs.
use whispy.Base.{
  ℕ, true, none, some, List, [], ◌∷◌, ◌≡◌, ◌≢◌, ◌⊎◌, inl, inr, refl, sym, ap, ◌∙◌, Result, ok, err,
  some_inj,
}
use whispy.Desktop.Adapters.{
  Tools, ended, X11Clip, xclip, xsel, no_clip, captured, untyped_top, read_x11, copy_x11, clear_x11,
  top_x11, x11_desktop,
}
use whispy.Desktop.{Faithful, mime_is_text}
use whispy.Inject.Restore.{pressed_state, paste_text_restores}
use whispy.Inject.{paste_text}
use whispy.Text.{Text, Bytes, codes}

-- An output that shows an empty selection.
abbrev pub ShowsNothing : Result Text Bytes → Type 0
ShowsNothing r = (r ≡ ok []) ⊎ ((e : Text) × (r ≡ err e))

module _ {S : Type 0} (t : Tools S) where
  -- What xclip and xsel promise: the selection holds what it was last given, and is empty once it is
  -- given nothing or cleared.
  pub record Selects : Type 0 where
    pub xclip_holds :
        (b : ℕ) (bytes : Bytes) (s : S)
        → (copy_x11 t xclip (b ∷ bytes) s).1 ≡ ok tt
        → t.output
            (codes "xclip")
            (codes "-selection" ∷ codes "clipboard" ∷ codes "-o" ∷ [])
            (copy_x11 t xclip (b ∷ bytes) s).0
          ≡ ended (codes "exit status: 0") true (b ∷ bytes)
    pub xclip_empties :
        (s : S)
        → (clear_x11 t xclip s).1 ≡ ok tt
        → ShowsNothing (read_x11 t xclip (clear_x11 t xclip s).0)
    pub xsel_holds :
        (b : ℕ) (bytes : Bytes) (s : S)
        → (copy_x11 t xsel (b ∷ bytes) s).1 ≡ ok tt
        → t.output
            (codes "xsel")
            (codes "--clipboard" ∷ codes "--output" ∷ [])
            (copy_x11 t xsel (b ∷ bytes) s).0
          ≡ ended (codes "exit status: 0") true (b ∷ bytes)
    pub xsel_empties :
        (s : S)
        → (clear_x11 t xsel s).1 ≡ ok tt
        → ShowsNothing (read_x11 t xsel (clear_x11 t xsel s).0)

  holds :
      Selects
      → (picked : X11Clip) (bytes : Bytes) (s : S) → bytes ≢ []
      → (copy_x11 t picked bytes s).1 ≡ ok tt
      → read_x11 t picked (copy_x11 t picked bytes s).0 ≡ ok bytes
  holds laws picked [] s full done = absurd (full refl)
  holds laws xclip (b ∷ bytes) s full done =
      ap (captured (codes "xclip")) (laws.xclip_holds b bytes s done)
  holds laws xsel (b ∷ bytes) s full done =
      ap (captured (codes "xsel")) (laws.xsel_holds b bytes s done)
  holds laws no_clip (b ∷ bytes) s full done = cc

  untyped_nothing : (r : Result Text Bytes) → ShowsNothing r → untyped_top r ≡ none
  untyped_nothing r (inl e) = rw e refl
  untyped_nothing r (inr (x, e)) = rw e refl

  empties :
      Selects
      → (picked : X11Clip) (s : S) → (clear_x11 t picked s).1 ≡ ok tt
      → top_x11 t picked (clear_x11 t picked s).0 ≡ none
  empties laws xclip s done = untyped_nothing _ (laws.xclip_empties s done)
  empties laws xsel s done = untyped_nothing _ (laws.xsel_empties s done)
  empties laws no_clip s done = refl

  untyped_some :
      (mime : Text) (r : Result Text Bytes) (bytes : Bytes)
      → untyped_top r ≡ some mime
      → r ≡ ok bytes
      → (mime ≡ codes "UTF8_STRING") × (bytes ≢ [])
  untyped_some mime (err e) bytes h k = cc
  untyped_some mime (ok []) bytes h k = cc
  untyped_some mime (ok (b ∷ bs)) bytes h k = (sym (some_inj h), λ e. cc)

  top_x11-some :
      (picked : X11Clip) (mime : Text) (bytes : Bytes) (s : S)
      → top_x11 t picked s ≡ some mime
      → read_x11 t picked s ≡ ok bytes
      → (mime ≡ codes "UTF8_STRING") × (bytes ≢ [])
  top_x11-some xclip mime bytes s h k = untyped_some mime _ bytes h k
  top_x11-some xsel mime bytes s h k = untyped_some mime _ bytes h k
  top_x11-some no_clip mime bytes s h k = cc

  top_x11_full :
      (picked : X11Clip) (bytes : Bytes) (s : S)
      → bytes ≢ []
      → read_x11 t picked s ≡ ok bytes
      → top_x11 t picked s ≡ some (codes "UTF8_STRING")
  top_x11_full picked [] s full h = absurd (full refl)
  top_x11_full xclip (b ∷ bytes) s full h = rw h refl
  top_x11_full xsel (b ∷ bytes) s full h = rw h refl
  top_x11_full no_clip (b ∷ bytes) s full h = cc

  x11_desktop-Faithful : Selects → (picked : X11Clip) → Faithful (x11_desktop t picked)
  unfolding x11_desktop
  x11_desktop-Faithful laws picked = record {
    copied = λ mime bytes before s top read done.
        let (name, full) = top_x11-some picked mime bytes before top read in
        let back = holds laws picked bytes s full done in
        (
          top_x11_full picked bytes (copy_x11 t picked bytes s).0 full back
              ∙ ap (λ n. some n) (sym name),
          back,
        );
    cleared = λ s done. empties laws picked s done;
  }

  -- After a paste on X11 that succeeded, the selection holds the text that it held before, if copying it
  -- back succeeded, whichever of xclip and xsel is driven, and though X11 gives texts no type.
  pub x11_paste_restores :
      Selects
      → (picked : X11Clip) (keys : List Text) (text : Text) (bytes : Bytes) (s : S) → bytes ≢ []
      → read_x11 t picked s ≡ ok bytes
      → (paste_text (x11_desktop t picked) keys text s).1 ≡ ok tt
      → (copy_x11 t picked bytes (t.wait (pressed_state (x11_desktop t picked) keys text s))).1
        ≡ ok tt
      → read_x11 t picked (paste_text (x11_desktop t picked) keys text s).0 ≡ ok bytes
  unfolding x11_desktop mime_is_text
  x11_paste_restores laws picked keys text bytes s full held done back =
      (paste_text_restores (x11_desktop t picked) keys text (codes "UTF8_STRING") bytes s
        (x11_desktop-Faithful laws picked) refl (top_x11_full picked bytes s full held, held) done
        back).1
