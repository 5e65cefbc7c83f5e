-- ===== src/Settings/Press.antt =====
-- What a key press does to the form: `handle` of crates/daemon/src/settings/form.rs.
use whispy.Base.{
  ℕ, zero, suc, ◌<◌, min, Bool, true, false, ◌&&◌, not, Option, some, ◌≡◌, ◌⊎◌, refl, sym, ap, ◌∙◌,
  arith, length, get_elem?, length-update, ◌==◌, Bool-cases, inl, inr, some_inj, subst,
}
use whispy.Settings.Fits.{
  BodyFits, IsWellFormed, values, focus, Fits-update_cursor, Fits-update_section,
}
use whispy.Settings.Form.{
  Body, radio, entries, Section, rows_of, rows, Input, up, down, next_section, prev_section, select,
  save, quit, test, Effect, nothing, confirm_quit, quits, Form, stepped, move_to, move_within,
  move_cursor, turned, move_among, move_section, pick, pick_in, chosen_anew, choose, test_effect,
  disarm, handle,
}

-- A step that keeps the form in order, and calls it saved only if it was and no value changed.
record Kept (f f' : Form) : Type 0 where
  pub well : IsWellFormed f'
  pub unchanged : f'.dirty ≡ false → (f.dirty ≡ false) × (values f' ≡ values f)
  pub armed : f'.quit_armed ≡ f.quit_armed

-- What a key press comes to that is not quit.
abbrev Handled : Form → Option (Form × Effect) → Type 0
Handled f r = (f' : Form) × (e : Effect) × (r ≡ some (f', e)) × Kept f f'

stay : (f : Form) → IsWellFormed f → Kept f f
stay f w = record { well = w; unchanged = λ h. (h, refl); armed = refl }

BodyFits-next :
    (upwards : Bool) (b : Body) (c n : ℕ)
    → rows_of b ≡ suc n
    → BodyFits b c
    → BodyFits b (min (stepped upwards c) n)
BodyFits-next true (radio choices chosen) c n e h = (h.0, omega (arith, h.1))
BodyFits-next false (radio choices chosen) c n e h = (h.0, omega (arith, h.1))
BodyFits-next true (entries es) c n e h = omega arith
BodyFits-next false (entries es) c n e h = omega arith

move_to-Kept :
    (f : Form) (s : Section) (c next : ℕ)
    → IsWellFormed f
    → get_elem? f.sections f.section ≡ some s
    → BodyFits s.body next
    → Kept f (move_to f c next).0
move_to-Kept f s c next w e fit = elim (Bool-cases (next == c)) [
  | inl same ↦ rw same (stay f w)
  | inr other ↦ rw other (record {
    well = record {
      focused = w.focused;
      fits = Fits-update_cursor f.section next f.sections f.cursors s w.fits e fit;
    };
    unchanged = λ h. (h, refl);
    armed = refl;
  })
]

move_within-Kept :
    (upwards : Bool) (f : Form) (s : Section) (c n : ℕ)
    → rows s ≡ n
    → IsWellFormed f
    → get_elem? f.sections f.section ≡ some s
    → BodyFits s.body c
    → Kept f (move_within upwards f n c).0
move_within-Kept upwards f s c zero e w found fit = stay f w
move_within-Kept upwards f s c (suc n) e w found fit =
    move_to-Kept f s c _ w found (BodyFits-next upwards s.body c n e fit)

move_cursor-Handled :
    (upwards : Bool) (f : Form) → IsWellFormed f → Handled f (move_cursor upwards f)
unfolding move_cursor
move_cursor-Handled upwards f w =
    let (s, c, found, at, fit) = focus f.section f.sections f.cursors w.fits w.focused in
    (
      (move_within upwards f (rows s) c).0,
      (move_within upwards f (rows s) c).1,
      rw (found, move_cursor) (rw (at, move_cursor) refl),
      move_within-Kept upwards f s c (rows s) refl w found fit.0,
    )

turned_lt : (backwards : Bool) (i n : ℕ) → i < suc n → turned backwards i (suc n) < suc n
turned_lt true i n h = grind arith
turned_lt false i n h = grind arith

move_section-Handled :
    (backwards : Bool) (f : Form) (n : ℕ)
    → length f.sections ≡ n
    → IsWellFormed f
    → Handled f (move_among backwards f n)
move_section-Handled backwards f zero e w = absurd (omega (arith, w.focused))
move_section-Handled backwards f (suc n) e w = (
  _,
  _,
  refl,
  record {
    well = record {
      focused =
          subst (λ k. turned backwards f.section (suc n) < k) (sym e)
            (turned_lt backwards f.section n (omega (arith, w.focused)));
      fits = w.fits;
    };
    unchanged = λ h. (h, refl);
    armed = refl;
  },
)

chosen_anew-Kept : (c : ℕ) (s : Section) (f : Form) → IsWellFormed f → Kept f (chosen_anew c s f)
chosen_anew-Kept c s f w = elim (Bool-cases (pick c s.body).1) [
  | inl changed ↦ rw changed (record {
    well = record {
      focused = omega (arith, w.focused, length-update f.section (pick_in c) f.sections);
      fits = Fits-update_section f.section c f.sections f.cursors w.fits;
    };
    unchanged = λ h. cc;
    armed = refl;
  })
  | inr same ↦ rw same (stay f w)
]

choose-Handled : (f : Form) → IsWellFormed f → Handled f (choose f)
unfolding choose
choose-Handled f w =
    let (s, c, found, at, fit) = focus f.section f.sections f.cursors w.fits w.focused in
    (
      chosen_anew c s f,
      nothing,
      rw (at, choose) (rw (found, choose) refl),
      chosen_anew-Kept c s f w,
    )

disarm-well : (f : Form) → IsWellFormed f → IsWellFormed (disarm f)
disarm-well f w = record { focused = w.focused; fits = w.fits }

test-Handled : (f : Form) → IsWellFormed f → Handled (disarm f) (handle test f)
unfolding handle
test-Handled f w =
    let (s, c, found, at, fit) = focus f.section f.sections f.cursors w.fits w.focused in
    (
      disarm f,
      (test_effect (disarm f) s).1,
      rw (found, handle) refl,
      stay (disarm f) (disarm-well f w),
    )

abbrev is_quit : Input → Bool
is_quit quit = true
is_quit _ = false

-- A key press but quit never fails on a form in order, and leaves one.
handle-Handled :
    (i : Input) (f : Form) → is_quit i ≡ false → IsWellFormed f → Handled (disarm f) (handle i f)
unfolding handle move_section
handle-Handled up f n w = move_cursor-Handled true (disarm f) (disarm-well f w)
handle-Handled down f n w = move_cursor-Handled false (disarm f) (disarm-well f w)
handle-Handled next_section f n w = move_section-Handled false (disarm f) _ refl (disarm-well f w)
handle-Handled prev_section f n w = move_section-Handled true (disarm f) _ refl (disarm-well f w)
handle-Handled select f n w = choose-Handled (disarm f) (disarm-well f w)
handle-Handled save f n w = (_, _, refl, stay (disarm f) (disarm-well f w))
handle-Handled quit f n w = cc
handle-Handled test f n w = test-Handled f w

-- A key press that keeps the form in order.
pub record Left (f f' : Form) : Type 0 where
  pub well : IsWellFormed f'
  pub unchanged : f'.dirty ≡ false → (f.dirty ≡ false) × (values f' ≡ values f)

abbrev pub Pressed : Form → Option (Form × Effect) → Type 0
Pressed f r = (f' : Form) × (e : Effect) × (r ≡ some (f', e)) × Left f f'

quit-Pressed : (f : Form) → IsWellFormed f → Pressed f (handle quit f)
unfolding handle
quit-Pressed f w = elim (Bool-cases (f.dirty && not f.quit_armed)) [
  | inl warn ↦ rw warn (
    _,
    _,
    refl,
    record { well = record { focused = w.focused; fits = w.fits }; unchanged = λ h. (h, refl) },
  )
  | inr leave ↦ rw leave (_, _, refl, record { well = w; unchanged = λ h. (h, refl) })
]

of_Handled : (f : Form) (r : Option (Form × Effect)) → Handled (disarm f) r → Pressed f r
of_Handled f r (f', e, h, k) = (f', e, h, record { well = k.well; unchanged = k.unchanged })

pub handle-Pressed : (i : Input) (f : Form) → IsWellFormed f → Pressed f (handle i f)
handle-Pressed quit f w = quit-Pressed f w
handle-Pressed up f w = of_Handled f _ (handle-Handled up f refl w)
handle-Pressed down f w = of_Handled f _ (handle-Handled down f refl w)
handle-Pressed next_section f w = of_Handled f _ (handle-Handled next_section f refl w)
handle-Pressed prev_section f w = of_Handled f _ (handle-Handled prev_section f refl w)
handle-Pressed select f w = of_Handled f _ (handle-Handled select f refl w)
handle-Pressed save f w = of_Handled f _ (handle-Handled save f refl w)
handle-Pressed test f w = of_Handled f _ (handle-Handled test f refl w)

quit_armed_of_quits :
    (f f' : Form) → handle quit f ≡ some (f', quits) → f.dirty ≡ true → f.quit_armed ≡ true
unfolding handle
quit_armed_of_quits f f' h d = ground arith

disarmed :
    (i : Input) (f f' : Form) (e : Effect)
    → is_quit i ≡ false
    → IsWellFormed f
    → handle i f ≡ some (f', e)
    → f'.quit_armed ≡ false
disarmed i f f' e n w h =
    let (g, e', h', k) = handle-Handled i f n w in
    ap (λ (r : Form × Effect). r.0.quit_armed) (some_inj (sym h ∙ h')) ∙ k.armed

effect_of_quit :
    (f f' : Form) (e : Effect) → handle quit f ≡ some (f', e) → (e ≡ confirm_quit) ⊎ (e ≡ quits)
unfolding handle
effect_of_quit f f' e h = ground arith

-- Unsaved changes are given up only by two presses of quit, one right behind the other: where a press
-- of quit leaves the screen with changes, the press before it was quit too, and warned, or would
-- itself have left the screen.
quit_twice :
    (i : Input) (f f1 f2 : Form) (e : Effect)
    → IsWellFormed f
    → handle i f ≡ some (f1, e)
    → handle quit f1 ≡ some (f2, quits)
    → f1.dirty ≡ true
    → (i ≡ quit) × ((e ≡ confirm_quit) ⊎ (e ≡ quits))
quit_twice quit f f1 f2 e w h1 h2 d = (refl, effect_of_quit f f1 e h1)
quit_twice i f f1 f2 e w h1 h2 d =
    let on = quit_armed_of_quits f1 f2 h2 d in let off = disarmed i f f1 e refl w h1 in cc
