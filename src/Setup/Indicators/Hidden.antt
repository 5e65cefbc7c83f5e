-- ===== src/Setup/Indicators/Hidden.antt =====
-- The dictation indicator is gone behind `without_dictation_indicator` of crates/daemon/src/setup.rs.
use whispy.Base.{
  Bool, true, false, ◌&&◌, ◌||◌, not, Option, none, some, List, [], ◌∷◌, any, filter, ◌≡◌, refl, ap,
  ◌∙◌, arith, list_eq, list_eq_refl, Bool-cases, inl, inr, &&-true, &&-false, ||-false, neither,
  not-true,
}
use whispy.Json.{
  Json, null, boolean, number, string, array, object, Items, nil, cons, Fields, end, field, get,
  insert, as_str, text_lt,
}
use whispy.Setup.Indicators.{
  strings_in, strings_of, array_of, is_dictation, or_all, current_items, is_widget, kept_items,
  replace_items, without_dictation_indicator, without_in_items, without_in_fields,
}
use whispy.Text.{Text, codes}

-- A widget that shows the indicator.
abbrev pub shows_here : List Text → Fields → Bool
shows_here ids fs = is_widget fs && any is_dictation (current_items ids fs)

abbrev pub is_none : List Text → Bool
is_none [] = true
is_none (t ∷ ts) = false

-- A widget that shows it shows another one as well.
abbrev pub spares_here : List Text → Fields → Bool
spares_here ids fs =
    not (shows_here ids fs)
    || not (is_none (filter (λ t. not (is_dictation t)) (current_items ids fs)))

unfoldable mutual
  -- Some widget shows the indicator.
  pub shows : List Text → Json → Bool
  shows ids (object fs) = shows_here ids fs || shows_fields ids fs
  shows ids (array items) = shows_items ids items
  shows ids _ = false

  pub shows_items : List Text → Items → Bool
  shows_items ids nil = false
  shows_items ids (cons v rest) = shows ids v || shows_items ids rest

  pub shows_fields : List Text → Fields → Bool
  shows_fields ids end = false
  shows_fields ids (field k v rest) = shows ids v || shows_fields ids rest

unfoldable mutual
  -- No widget shows only the indicator.
  pub spares : List Text → Json → Bool
  spares ids (object fs) = spares_here ids fs && spares_fields ids fs
  spares ids (array items) = spares_items ids items
  spares ids _ = true

  pub spares_items : List Text → Items → Bool
  spares_items ids nil = true
  spares_items ids (cons v rest) = spares ids v && spares_items ids rest

  pub spares_fields : List Text → Fields → Bool
  spares_fields ids end = true
  spares_fields ids (field k v rest) = spares ids v && spares_fields ids rest

-- What the walk leaves alone: the strings of the values it goes through.
as_str-replaced :
    (o : Option (List Text)) (r : Fields × Bool) → as_str (some (replace_items o r).0) ≡ none
as_str-replaced none (fs, c) = refl
as_str-replaced (some kept) (fs, c) = refl

strings_of-replaced :
    (o : Option (List Text)) (r : Fields × Bool) → strings_of (some (replace_items o r).0) ≡ []
strings_of-replaced none (fs, c) = refl
strings_of-replaced (some kept) (fs, c) = refl

module _ (ids : List Text) where
  as_str-without :
      (v : Json) → as_str (some (without_dictation_indicator ids v).0) ≡ as_str (some v)
  unfolding without_dictation_indicator
  as_str-without (object fs) = as_str-replaced (kept_items ids fs) (without_in_fields ids fs)
  as_str-without (array items) = refl
  as_str-without null = refl
  as_str-without (boolean b) = refl
  as_str-without (number n) = refl
  as_str-without (string t) = refl

  strings_in-without :
      (items : Items) → strings_in (without_in_items ids items).0 ≡ strings_in items
  unfolding without_dictation_indicator
  strings_in-without nil = refl
  strings_in-without (cons v rest) = rw (as_str-without v, strings_in-without rest) refl

  strings_of-without :
      (v : Json) → strings_of (some (without_dictation_indicator ids v).0) ≡ strings_of (some v)
  unfolding without_dictation_indicator
  strings_of-without (object fs) =
      strings_of-replaced (kept_items ids fs) (without_in_fields ids fs)
  strings_of-without (array items) = strings_in-without items
  strings_of-without null = refl
  strings_of-without (boolean b) = refl
  strings_of-without (number n) = refl
  strings_of-without (string t) = refl

  get-without :
      (key : Text) (fs : Fields)
      → (as_str (get key (without_in_fields ids fs).0) ≡ as_str (get key fs))
        × (strings_of (get key (without_in_fields ids fs).0) ≡ strings_of (get key fs))
  unfolding without_dictation_indicator
  get-without key end = (refl, refl)
  get-without key (field k v rest) = elim (Bool-cases (list_eq k key)) [
    | inl here ↦ rw here (as_str-without v, strings_of-without v)
    | inr there ↦ rw there (get-without key rest)
  ]

  shows_here-without :
      (fs : Fields) → shows_here ids (without_in_fields ids fs).0 ≡ shows_here ids fs
  shows_here-without fs =
      rw ((get-without (codes "id") fs).0, (get-without (codes "items") fs).1) refl

-- New items in their place.
get-insert_same : (key : Text) (v : Json) (fs : Fields) → get key (insert key v fs) ≡ some v
get-insert_same key v end = rw (list_eq_refl key) refl
get-insert_same key v (field k w rest) = elim (Bool-cases (list_eq k key)) [
  | inl here ↦ rw (here, get) (rw here refl)
  | inr there ↦ elim (Bool-cases (text_lt key k)) [
    | inl before ↦ rw (there, before) (rw (list_eq_refl key) refl)
    | inr after ↦ rw (there, after) (rw (there, get) (get-insert_same key v rest))
  ]
]

strings_in-array_of : (ts : List Text) → strings_in (array_of ts) ≡ ts
strings_in-array_of [] = refl
strings_in-array_of (t ∷ ts) = ap (λ us. t ∷ us) (strings_in-array_of ts)

none_left : (ts : List Text) → any is_dictation (filter (λ t. not (is_dictation t)) ts) ≡ false
none_left [] = refl
none_left (t ∷ ts) = elim (Bool-cases (is_dictation t)) [
  | inl it ↦ rw it (none_left ts)
  | inr other ↦ rw other (rw other (none_left ts))
]

module _ (ids : List Text) where
  shows-array_of : (ts : List Text) → shows_items ids (array_of ts) ≡ false
  unfolding shows
  shows-array_of [] = refl
  shows-array_of (t ∷ ts) = shows-array_of ts

  shows_fields-insert :
      (key : Text) (ts : List Text) (fs : Fields)
      → shows_fields ids fs ≡ false
      → shows_fields ids (insert key (array (array_of ts)) fs) ≡ false
  unfolding shows
  shows_fields-insert key ts end h = rw (shows-array_of ts) refl
  shows_fields-insert key ts (field k w rest) h = elim (Bool-cases (list_eq k key)) [
    | inl here ↦ rw here (rw (shows-array_of ts) (||-false (shows ids w) _ h).1)
    | inr there ↦ elim (Bool-cases (text_lt key k)) [
      | inl before ↦ rw (there, before) (rw (shows-array_of ts) h)
      | inr after ↦
          let (first, others) = ||-false (shows ids w) _ h in
          rw (there, after) (rw first (shows_fields-insert key ts rest others))
    ]
  ]

  listed_hidden :
      (ts : List Text)
      → is_none ts ≡ false
      → any is_dictation ts ≡ false
      → any is_dictation (or_all ids (strings_in (array_of ts))) ≡ false
  listed_hidden [] e h = cc
  listed_hidden (t ∷ ts) e h = rw (strings_in-array_of ts) h

  -- The items of a widget behind their replacement.
  shows_here-insert :
      (fs fs' : Fields)
      → is_none (filter (λ t. not (is_dictation t)) (current_items ids fs)) ≡ false
      → shows_here ids (
          insert
            (codes "items")
            (array (array_of (filter (λ t. not (is_dictation t)) (current_items ids fs))))
            fs')
        ≡ false
  shows_here-insert fs fs' some_left =
      rw
        (get-insert_same (codes "items")
          (array (array_of (filter (λ t. not (is_dictation t)) (current_items ids fs)))) fs')
        (&&-false _ _ (
          listed_hidden (filter (λ t. not (is_dictation t)) (current_items ids fs)) some_left
            (none_left (current_items ids fs))))

  Replaced : Fields → Type 0
  Replaced fs =
      let r = replace_items (kept_items ids fs) (without_in_fields ids fs) in
      (r.1 ≡ (shows_here ids fs || (without_in_fields ids fs).1))
      × (spares_here ids fs ≡ true
          → shows_fields ids (without_in_fields ids fs).0 ≡ false
          → shows ids r.0 ≡ false)

  replaced : (fs : Fields) → Replaced fs
  unfolding shows kept_items Replaced
  replaced fs = elim (Bool-cases (shows_here ids fs)) [
    | inl shown ↦ rw shown (
      refl,
      λ spared inside.
          neither (shows_here-insert fs (without_in_fields ids fs).0 (not-true _ spared)) (
            shows_fields-insert (codes "items")
              (filter (λ t. not (is_dictation t)) (current_items ids fs))
              (without_in_fields ids fs).0 inside),
    )
    | inr quiet ↦
        rw quiet (refl, λ spared inside. neither (shows_here-without ids fs ∙ quiet) inside)
  ]

swapped : {a b c d : Bool} → a ≡ c → b ≡ d → (b || a) ≡ (c || d)
swapped {a} {b} {c} {d} h k = ground (arith, h, k)

module _ (ids : List Text) where
  mutual
    unfolding shows spares without_dictation_indicator Replaced

    flag : (v : Json) → (without_dictation_indicator ids v).1 ≡ shows ids v
    flag (object fs) = (replaced ids fs).0 ∙ ap (λ b. shows_here ids fs || b) (flag_fields fs)
    flag (array items) = flag_items items
    flag null = refl
    flag (boolean b) = refl
    flag (number n) = refl
    flag (string t) = refl

    flag_items : (items : Items) → (without_in_items ids items).1 ≡ shows_items ids items
    flag_items nil = refl
    flag_items (cons v rest) = swapped (flag v) (flag_items rest)

    flag_fields : (fs : Fields) → (without_in_fields ids fs).1 ≡ shows_fields ids fs
    flag_fields end = refl
    flag_fields (field k v rest) = swapped (flag v) (flag_fields rest)

  mutual
    unfolding shows spares without_dictation_indicator Replaced

    hidden :
        (v : Json) → spares ids v ≡ true → shows ids (without_dictation_indicator ids v).0 ≡ false
    hidden (object fs) h =
        let (here, inside) = &&-true _ _ h in (replaced ids fs).1 here (hidden_fields fs inside)
    hidden (array items) h = hidden_items items h
    hidden null h = refl
    hidden (boolean b) h = refl
    hidden (number n) h = refl
    hidden (string t) h = refl

    hidden_items :
        (items : Items)
        → spares_items ids items ≡ true
        → shows_items ids (without_in_items ids items).0 ≡ false
    hidden_items nil h = refl
    hidden_items (cons v rest) h =
        let (first, others) = &&-true _ _ h in neither (hidden v first) (hidden_items rest others)

    hidden_fields :
        (fs : Fields)
        → spares_fields ids fs ≡ true
        → shows_fields ids (without_in_fields ids fs).0 ≡ false
    hidden_fields end h = refl
    hidden_fields (field k v rest) h =
        let (first, others) = &&-true _ _ h in neither (hidden v first) (hidden_fields rest others)

-- Behind the edit no widget shows the indicator, it tells whether there was one, and a second edit
-- finds nothing to change; as long as every widget that shows the indicator shows another one too:
-- a list that is left empty would stand for all of them.
pub without_dictation_indicator_hides :
    (ids : List Text) (v : Json)
    → spares ids v ≡ true
    → let w = without_dictation_indicator ids v in
      (w.1 ≡ shows ids v)
      × (shows ids w.0 ≡ false)
      × ((without_dictation_indicator ids w.0).1 ≡ false)
without_dictation_indicator_hides ids v h =
    (flag ids v, hidden ids v h, flag ids (without_dictation_indicator ids v).0 ∙ hidden ids v h)
