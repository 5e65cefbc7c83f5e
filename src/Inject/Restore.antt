-- ===== src/Inject/Restore.antt =====
-- The clipboard across a paste: crates/daemon/src/inject.rs.
use whispy.Base.{
  arith, true, none, some, List, [], ◌∷◌, ◌≡◌, ◌≢◌, ◌⊎◌, inl, inr, refl, Result, ok, err,
}
use whispy.Desktop.{Desktop, Faithful, mime_is_text}
use whispy.Inject.{
  text_saved, InjectError, save_clipboard, restore_clipboard, judge_exit, paste_text,
}
use whispy.Text.Encode.{as_bytes}
use whispy.Text.{Text, Bytes}

module _ {S : Type 0} (d : Desktop S) where
  -- The states a paste goes through: behind the copy, the keys and the wait.
  abbrev pub copied_state : Text → S → S
  copied_state text s = (d.copy_clipboard none (as_bytes text) s).0

  abbrev pub pressed_state : List Text → Text → S → S
  pressed_state keys text s = (d.press_keys keys (copied_state text s)).0

  -- The clipboard shows the text under the type.
  abbrev pub Shows : Text → Bytes → S → Type 0
  Shows mime bytes s = (d.top_mime_type s ≡ some mime) × (d.read_clipboard mime s ≡ ok bytes)

  save_clipboard-Shows :
      (mime : Text) (bytes : Bytes) (s : S)
      → mime_is_text mime ≡ true
      → Shows mime bytes s
      → save_clipboard d s ≡ text_saved mime bytes
  unfolding save_clipboard
  save_clipboard-Shows mime bytes s t (top, read) = rw (save_clipboard, top, t, read) refl

  paste_text_ok :
      (keys : List Text) (text : Text) (s : S)
      → (paste_text d keys text s).1 ≡ ok tt
      → (paste_text d keys text s).0
        ≡ restore_clipboard d (save_clipboard d s) (d.wait (pressed_state keys text s))
  unfolding paste_text
  paste_text_ok [] text s h = cc
  paste_text_ok (k ∷ ks) text s h = ground arith

  -- After a paste that succeeded, a clipboard that held text before shows the same text under the
  -- same type, if copying it back succeeded.
  pub paste_text_restores :
      (keys : List Text) (text mime : Text) (bytes : Bytes) (s : S)
      → Faithful d
      → mime_is_text mime ≡ true
      → Shows mime bytes s
      → (paste_text d keys text s).1 ≡ ok tt
      → (d.copy_clipboard (some mime) bytes (d.wait (pressed_state keys text s))).1 ≡ ok tt
      → Shows mime bytes (paste_text d keys text s).0
  unfolding restore_clipboard
  paste_text_restores keys text mime bytes s law t shown done back =
      rw (paste_text_ok keys text s done, save_clipboard-Shows mime bytes s t shown)
        (law.copied mime bytes s (d.wait (pressed_state keys text s)) shown.0 shown.1 back)

  -- What makes a paste fail.
  pub data Failure (keys : List Text) (text : Text) (s : S) : Type 0 where
    no_keys : keys ≡ [] → Failure keys text s
    not_copied :
        {e : Text} → (d.copy_clipboard none (as_bytes text) s).1 ≡ err e → Failure keys text s
    not_pressed :
        {e : InjectError}
        → judge_exit d (d.press_keys keys (copied_state text s)).1 ≡ err e
        → Failure keys text s

  abbrev LeftAs : List Text → Text → S → Type 0
  LeftAs keys text s =
      ((paste_text d keys text s).0 ≡ s)
      ⊎ ((paste_text d keys text s).0 ≡ copied_state text s)
      ⊎ ((paste_text d keys text s).0 ≡ pressed_state keys text s)

  failed_by :
      (keys : List Text) (text : Text) (s : S) (e : InjectError) (c : Result Text (Unit {0}))
      (x : Result InjectError (Unit {0}))
      → (d.copy_clipboard none (as_bytes text) s).1 ≡ c
      → judge_exit d (d.press_keys keys (copied_state text s)).1 ≡ x
      → (paste_text d keys text s).1 ≡ err e
      → Failure keys text s × LeftAs keys text s
  unfolding paste_text
  failed_by [] text s e c x ec ex h = (no_keys refl, inl refl)
  failed_by (k ∷ ks) text s e (err m) x ec ex h = (not_copied ec, inr (inl (ground arith)))
  failed_by (k ∷ ks) text s e (ok _) (err m) ec ex h = (not_pressed ex, inr (inr (ground arith)))
  failed_by (k ∷ ks) text s e (ok _) (ok _) ec ex h = absurd (ground arith)

  Failure-fails :
      (keys : List Text) (text : Text) (s : S)
      → Failure keys text s
      → (paste_text d keys text s).1 ≢ ok tt
  unfolding paste_text
  Failure-fails [] text s f h = cc
  Failure-fails (k ∷ ks) text s (no_keys e) h = cc
  Failure-fails (k ∷ ks) text s (not_copied e) h = ground arith
  Failure-fails (k ∷ ks) text s (not_pressed e) h = ground arith

  -- A paste fails for want of keys, of the copy, or of the keystroke, and for nothing else: neither
  -- saving the old clipboard nor putting it back can fail it. And each of the three does fail it,
  -- the clipboard being left as it is then, not put back.
  pub paste_text_fails :
      (keys : List Text) (text : Text) (s : S)
      → ((e : InjectError)
          → (paste_text d keys text s).1 ≡ err e
          → Failure keys text s
            × (((paste_text d keys text s).0 ≡ s)
                ⊎ ((paste_text d keys text s).0 ≡ copied_state text s)
                ⊎ ((paste_text d keys text s).0 ≡ pressed_state keys text s)))
        × (Failure keys text s → (paste_text d keys text s).1 ≢ ok tt)
  paste_text_fails keys text s =
      (λ e h. failed_by keys text s e _ _ refl refl h, Failure-fails keys text s)
