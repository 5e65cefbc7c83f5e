-- ===== src/Settings/Clean.antt =====
-- What the settings screen takes for saved: crates/daemon/src/settings/form.rs, and the event loop of
-- crates/daemon/src/settings/mod.rs as far as it changes the form.
use whispy.Base.{◌<◌, false, Option, none, some, List, [], ◌∷◌, ◌≡◌, refl, ◌∙◌, arith, map, length}
use whispy.Settings.Fits.{Fits, IsWellFormed, values_of, values, set_first_history_lem}
use whispy.Settings.Form.{
  HistoryEntry, Section, Input, Effect, Form, chosen_of, new, set_history, mark_saved, handle,
}
use whispy.Text.{Text}
use whispy.Settings.Press.{handle-Pressed}

-- What the event loop does to the form.
pub data Op : Type 0 where
  press : Input → Op
  saved : Op
  refreshed : List HistoryEntry → Op

abbrev pub after_press :
    List (Option Text) → Option (Form × Effect) → Option (Form × List (Option Text))
after_press base none = none
after_press base (some (f, e)) = some (f, base)

-- One of them, on the form and the values that were last loaded or saved.
unfoldable pub operate : Op → Form × List (Option Text) → Option (Form × List (Option Text))
unfolding handle mark_saved set_history
operate (press i) (f, base) = after_press base (handle i f)
operate saved (f, base) = some (mark_saved f, values f)
operate (refreshed es) (f, base) = some (set_history es f, base)

unfoldable pub run : List Op → Form × List (Option Text) → Option (Form × List (Option Text))
unfolding operate
run [] s = some s
run (op ∷ ops) s = elim (operate op s) [ none ↦ none | some s' ↦ run ops s' ]

-- A form in order, which has the values of the base unless it is marked as changed.
pub record IsClean (f : Form) (base : List (Option Text)) : Type 0 where
  pub well : IsWellFormed f
  pub clean : f.dirty ≡ false → values f ≡ base

abbrev Operated : Option (Form × List (Option Text)) → Type 0
Operated r = (f : Form) × (base : List (Option Text)) × (r ≡ some (f, base)) × IsClean f base

operate-Operated :
    (op : Op) (f : Form) (base : List (Option Text))
    → IsClean f base
    → Operated (operate op (f, base))
unfolding operate mark_saved set_history
operate-Operated (press i) f base c =
    let (f', e, h, k) = handle-Pressed i f c.well in
    (
      f',
      base,
      rw (h, after_press) refl,
      record { well = k.well; clean = λ d. (k.unchanged d).1 ∙ c.clean (k.unchanged d).0 },
    )
operate-Operated saved f base c = (
  _,
  _,
  refl,
  record { well = record { focused = c.well.focused; fits = c.well.fits }; clean = λ d. refl },
)
operate-Operated (refreshed es) f base c =
    let (fits, kept, long) = set_first_history_lem es f.sections f.cursors c.well.fits in
    (
      _,
      _,
      refl,
      record {
        well = record { focused = omega (arith, long, c.well.focused); fits = fits };
        clean = λ d. kept ∙ c.clean d;
      },
    )

run-Operated :
    (ops : List Op) (f : Form) (base : List (Option Text))
    → IsClean f base
    → Operated (run ops (f, base))
unfolding run
run-Operated [] f base c = (f, base, refl, c)
run-Operated (op ∷ ops) f base c =
    let (f', base', h, c') = operate-Operated op f base c in
    rw (h, run) (run-Operated ops f' base' c')

-- The sections that a screen can open with.
abbrev pub Opens : List Section → Type 0
Opens ss = Fits ss (map (λ (s : Section). chosen_of s.body) ss)

-- Whatever keys are pressed, saves made and histories loaded, the screen never fails, its focus,
-- cursors and choices stay in range, and a form that it calls unchanged holds the values that
-- were last loaded or saved. It must open with some section, and each with a choice that it has.
pub run-IsClean :
    (ss : List Section) (ops : List Op)
    → 0 < length ss
    → Opens ss
    → (f : Form) × (base : List (Option Text)) × (run ops (new ss, values_of ss) ≡ some (f, base))
      × IsClean f base
unfolding new
run-IsClean ss ops some_section fits =
    run-Operated ops (new ss) (values_of ss)
      (record { well = record { focused = some_section; fits = fits }; clean = λ d. refl })
