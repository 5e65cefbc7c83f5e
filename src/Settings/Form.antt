-- ===== src/Settings/Form.antt =====
-- The state of the settings screen: crates/daemon/src/settings/form.rs. `none` is a panic of the
-- source: an index out of range, or a remainder by zero.
use whispy.Base.{
  ℕ, zero, suc, ◌+◌, ◌-◌, ◌%◌, min, Bool, true, false, ◌&&◌, not, Option, none, some, List, [], ◌∷◌,
  map, length, get_elem?, find, update, ltb, ◌==◌, if◌then◌else◌,
}
use whispy.Text.{Text}

-- `SectionKey`.
pub data SectionKey : Type 0 where
  microphone engine language typing auto_stop history : SectionKey

abbrev pub key_number : SectionKey → ℕ
key_number microphone = 0
key_number engine = 1
key_number language = 2
key_number typing = 3
key_number auto_stop = 4
key_number history = 5

abbrev pub key_eq : SectionKey → SectionKey → Bool
key_eq a b = key_number a == key_number b

-- `Choice`.
pub record Choice : Type 0 where
  pub label : Text
  pub value : Text
  pub detail : Text

-- `HistoryEntry`.
pub record HistoryEntry : Type 0 where
  pub accepted : Bool
  pub reason : Option Text
  pub text : Text

-- `Body`.
pub data Body : Type 0 where
  radio : List Choice → ℕ → Body
  entries : List HistoryEntry → Body

-- `Section`.
pub record Section : Type 0 where
  pub key : SectionKey
  pub title : Text
  pub hint : Text
  pub body : Body

-- `Section::rows`.
abbrev pub rows_of : Body → ℕ
rows_of (radio choices chosen) = length choices
rows_of (entries es) = length es

abbrev pub rows : Section → ℕ
rows s = rows_of s.body

-- `Input` and `Effect`.
pub data Input : Type 0 where
  up down next_section prev_section select save quit test : Input

pub data Effect : Type 0 where
  nothing moved saves confirm_quit quits tests : Effect

-- `Form`.
pub record Form : Type 0 where
  pub sections : List Section
  pub section : ℕ
  pub cursors : List ℕ
  pub dirty : Bool
  pub quit_armed : Bool

abbrev pub chosen_of : Body → ℕ
chosen_of (radio choices chosen) = chosen
chosen_of (entries es) = 0

-- `Form::new`.
unfoldable pub new : List Section → Form
new sections = record {
  sections = sections;
  section = 0;
  cursors = map (λ (s : Section). chosen_of s.body) sections;
  dirty = false;
  quit_armed = false;
}

abbrev pub choice_at : Body → ℕ → Option Choice
choice_at (radio choices chosen) i = get_elem? choices i
choice_at (entries es) i = none

abbrev pub value_of : Option Choice → Option Text
value_of none = none
value_of (some c) = some c.value

-- The chosen value of a section.
abbrev pub section_value : Section → Option Text
section_value s = value_of (choice_at s.body (chosen_of s.body))

abbrev pub found_value : Option Section → Option Text
found_value none = none
found_value (some s) = section_value s

-- `value`.
unfoldable pub value : Form → SectionKey → Option Text
value f key = found_value (find (λ (s : Section). key_eq s.key key) f.sections)

-- `highlighted`.
unfoldable pub highlighted : Form → Option Choice
highlighted f = elim (get_elem? f.sections f.section) [
  | none ↦ none
  | some s ↦ elim (get_elem? f.cursors f.section) [ none ↦ none | some c ↦ choice_at s.body c ]
]

-- The loop of `set_history`.
unfoldable pub set_first_history : List HistoryEntry → List Section → List ℕ → List Section × List ℕ
set_first_history es [] cs = ([], cs)
set_first_history es (s ∷ ss) [] = (s ∷ ss, [])
set_first_history es (s ∷ ss) (c ∷ cs) =
    let (ss', cs') = set_first_history es ss cs in
    if key_eq s.key history
    then (record s { body = entries es } ∷ ss, min c (length es - 1) ∷ cs)
    else (s ∷ ss', c ∷ cs')

-- `set_history`.
unfoldable pub set_history : List HistoryEntry → Form → Form
unfolding set_first_history
set_history es f =
    let (ss, cs) = set_first_history es f.sections f.cursors in
    record f { sections = ss; cursors = cs }

-- `mark_saved`.
unfoldable pub mark_saved : Form → Form
mark_saved f = record f { dirty = false }

abbrev pub stepped : Bool → ℕ → ℕ
stepped true c = c - 1
stepped false c = c + 1

-- `move_cursor`, upwards or downwards, in a section of so many rows at such a cursor.
abbrev pub move_to : Form → ℕ → ℕ → Form × Effect
move_to f c next =
    if next == c
    then (f, nothing)
    else (record f { cursors = update f.section (λ _. next) f.cursors }, moved)

abbrev pub move_within : Bool → Form → ℕ → ℕ → Form × Effect
move_within upwards f zero c = (f, nothing)
move_within upwards f (suc n) c = move_to f c (min (stepped upwards c) n)

unfoldable pub move_cursor : Bool → Form → Option (Form × Effect)
move_cursor upwards f = elim (get_elem? f.sections f.section) [
  | none ↦ none
  | some s ↦ elim (get_elem? f.cursors f.section) [
    | none ↦ none
    | some c ↦ some (move_within upwards f (rows s) c)
  ]
]

-- `move_section`, backwards or forwards among so many.
abbrev pub turned : Bool → ℕ → ℕ → ℕ
turned true i n = (i + n - 1) % n
turned false i n = (i + 1) % n

abbrev pub move_among : Bool → Form → ℕ → Option (Form × Effect)
move_among backwards f zero = none
move_among backwards f (suc n) =
    some (record f { section = turned backwards f.section (suc n) }, moved)

unfoldable pub move_section : Bool → Form → Option (Form × Effect)
move_section backwards f = move_among backwards f (length f.sections)

-- The choice of a section, and whether it is another than before.
abbrev pub pick : ℕ → Body → Body × Bool
pick c (entries es) = (entries es, false)
pick c (radio choices chosen) =
    if ltb c (length choices) && not (chosen == c)
    then (radio choices c, true)
    else (radio choices chosen, false)

abbrev pub pick_in : ℕ → Section → Section
pick_in c s = record s { body = (pick c s.body).0 }

abbrev pub chosen_anew : ℕ → Section → Form → Form
chosen_anew c s f =
    if (pick c s.body).1
    then record f { sections = update f.section (pick_in c) f.sections; dirty = true }
    else f

-- The arm `Input::Select` of `handle`.
unfoldable pub choose : Form → Option (Form × Effect)
choose f = elim (get_elem? f.cursors f.section) [
  | none ↦ none
  | some c ↦ elim (get_elem? f.sections f.section) [
    | none ↦ none
    | some s ↦ some (chosen_anew c s f, nothing)
  ]
]

abbrev pub test_effect : Form → Section → Form × Effect
test_effect f s = (f, if key_eq s.key microphone then tests else nothing)

abbrev pub disarm : Form → Form
disarm f = record f { quit_armed = false }

-- `handle`.
unfoldable pub handle : Input → Form → Option (Form × Effect)
unfolding move_cursor move_section choose
handle up f = move_cursor true (disarm f)
handle down f = move_cursor false (disarm f)
handle next_section f = move_section false (disarm f)
handle prev_section f = move_section true (disarm f)
handle select f = choose (disarm f)
handle save f = some (disarm f, if f.dirty then saves else nothing)
handle quit f = some (
    if f.dirty && not f.quit_armed
    then (record f { quit_armed = true }, confirm_quit)
    else (f, quits))
handle test f = elim (get_elem? f.sections f.section) [
  | none ↦ none
  | some s ↦ some (test_effect (disarm f) s)
]
