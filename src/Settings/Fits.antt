-- ===== src/Settings/Fits.antt =====
-- Cursors and choices in range, and the values they stand for: crates/daemon/src/settings/form.rs.
use whispy.Base.{
  ℕ, zero, suc, ◌-◌, ◌≤◌, ◌<◌, Bool, true, false, Option, none, some, List, [], ◌∷◌, ◌≡◌, refl, sym,
  ap, ◌∙◌, arith, map, length, get_elem?, update, subst, some_inj, Bool-cases, inl, inr,
}
use whispy.Settings.Form.{
  history, HistoryEntry, Body, radio, entries, Section, Form, chosen_of, choice_at, value_of,
  section_value, set_first_history, pick, pick_in, key_eq,
}
use whispy.Text.{Text}

-- A cursor, and a choice, inside a section.
abbrev pub BodyFits : Body → ℕ → Type 0
BodyFits (radio choices chosen) c = (chosen < length choices) × (c < length choices)
BodyFits (entries es) c = c ≤ length es - 1

-- The history is no list of choices.
abbrev pub is_entries : Body → Bool
is_entries (radio choices chosen) = false
is_entries (entries es) = true

abbrev pub SectionFits : Section → ℕ → Type 0
SectionFits s c = BodyFits s.body c × (key_eq s.key history ≡ true → is_entries s.body ≡ true)

abbrev pub Fits : List Section → List ℕ → Type 0
Fits [] [] = Unit
Fits (s ∷ ss) (c ∷ cs) = SectionFits s c × Fits ss cs
Fits _ _ = ⊥

pub record IsWellFormed (f : Form) : Type 0 where
  pub focused : f.section < length f.sections
  pub fits : Fits f.sections f.cursors

-- The chosen values.
abbrev pub values_of : List Section → List (Option Text)
values_of = map section_value

abbrev pub values : Form → List (Option Text)
values f = values_of f.sections

-- The section and the cursor in focus.
pub focus :
    (i : ℕ) (ss : List Section) (cs : List ℕ)
    → Fits ss cs
    → i < length ss
    → (s : Section) × (c : ℕ) × (get_elem? ss i ≡ some s)
      × (get_elem? cs i ≡ some c)
      × SectionFits s c
focus i [] cs h room = absurd (omega arith)
focus i (s ∷ ss) [] h room = absurd h
focus zero (s ∷ ss) (c ∷ cs) h room = (s, c, refl, refl, h.0)
focus (suc i) (s ∷ ss) (c ∷ cs) h room = focus i ss cs h.1 (omega arith)

pub Fits-update_cursor :
    (i next : ℕ) (ss : List Section) (cs : List ℕ) (s : Section)
    → Fits ss cs
    → get_elem? ss i ≡ some s
    → BodyFits s.body next
    → Fits ss (update i (λ _. next) cs)
Fits-update_cursor i next [] cs s h e fit = cc
Fits-update_cursor i next (s' ∷ ss) [] s h e fit = h
Fits-update_cursor zero next (s' ∷ ss) (c ∷ cs) s h e fit =
    ((subst (λ (k : Section). BodyFits k.body next) (sym (some_inj e)) fit, h.0.1), h.1)
Fits-update_cursor (suc i) next (s' ∷ ss) (c ∷ cs) s h e fit =
    (h.0, Fits-update_cursor i next ss cs s h.1 e fit)

pick-BodyFits : (c d : ℕ) (b : Body) → BodyFits b d → BodyFits (pick c b).0 d
pick-BodyFits c d (radio choices chosen) h = ground arith
pick-BodyFits c d (entries es) h = h

is_entries-pick : (c : ℕ) (b : Body) → is_entries (pick c b).0 ≡ is_entries b
is_entries-pick c (radio choices chosen) = ground arith
is_entries-pick c (entries es) = refl

pub Fits-update_section :
    (i c : ℕ) (ss : List Section) (cs : List ℕ) → Fits ss cs → Fits (update i (pick_in c) ss) cs
Fits-update_section i c [] cs h = h
Fits-update_section i c (s ∷ ss) [] h = absurd h
Fits-update_section zero c (s ∷ ss) (d ∷ cs) h =
    ((pick-BodyFits c d s.body h.0.0, λ k. is_entries-pick c s.body ∙ h.0.1 k), h.1)
Fits-update_section (suc i) c (s ∷ ss) (d ∷ cs) h = (h.0, Fits-update_section i c ss cs h.1)

entries_value : (s : Section) → is_entries s.body ≡ true → section_value s ≡ none
entries_value s h = entries_none s.body h
  where
    entries_none : (b : Body) → is_entries b ≡ true → value_of (choice_at b (chosen_of b)) ≡ none
    entries_none (radio choices chosen) h = cc
    entries_none (entries es) h = refl

-- A history put in place leaves the cursors in range and the values as they are.
pub set_first_history_lem :
    (es : List HistoryEntry) (ss : List Section) (cs : List ℕ)
    → Fits ss cs
    → Fits (set_first_history es ss cs).0 (set_first_history es ss cs).1
      × (values_of (set_first_history es ss cs).0 ≡ values_of ss)
      × (length (set_first_history es ss cs).0 ≡ length ss)
unfolding set_first_history
set_first_history_lem es [] [] h = (tt, refl, refl)
set_first_history_lem es [] (c ∷ cs) h = absurd h
set_first_history_lem es (s ∷ ss) [] h = absurd h
set_first_history_lem es (s ∷ ss) (c ∷ cs) h = elim (Bool-cases (key_eq s.key history)) [
  | inl here ↦ rw here (
    ((omega arith, λ k. refl), h.1),
    ap (λ v. v ∷ values_of ss) (sym (entries_value s (h.0.1 here))),
    refl,
  )
  | inr there ↦
      let (fits, kept, long) = set_first_history_lem es ss cs h.1 in
      rw there ((h.0, fits), ap (λ vs. section_value s ∷ vs) kept, ap suc long)
]
