-- ===== src/Setup/Indicators.antt =====
-- Omarchy's own dictation indicator: `indicator_ids_from_manifest` and `without_dictation_indicator` of
-- crates/daemon/src/setup.rs, on JSON values whose maps are sorted by their keys.

pub mod Hidden
use whispy.Base.{
  ℕ, Bool, true, false, ◌&&◌, ◌||◌, not, Option, none, some, List, [], ◌∷◌, ◌++◌, any, filter, ltb,
  ◌==◌, list_eq, if◌then◌else◌,
}
use whispy.Json.{
  Json, null, boolean, number, string, array, object, Items, nil, cons, Fields, end, field, get,
  insert, as_str, index, text_is,
}
use whispy.Text.{Text, codes}

-- The strings of an array.
abbrev pub and_string : Option Text → List Text → List Text
and_string none ts = ts
and_string (some t) ts = t ∷ ts

abbrev pub strings_in : Items → List Text
strings_in nil = []
strings_in (cons v rest) = and_string (as_str (some v)) (strings_in rest)

abbrev pub strings_of : Option Json → List Text
strings_of (some (array items)) = strings_in items
strings_of _ = []

abbrev pub array_of : List Text → Items
array_of [] = nil
array_of (t ∷ ts) = cons (string t) (array_of ts)

abbrev pub widget_id : Text
widget_id = codes "omarchy.indicators"

abbrev pub is_dictation : Text → Bool
is_dictation t = list_eq t (codes "Dictation")

abbrev pub or_all : List Text → List Text → List Text
or_all all_ids [] = all_ids
or_all all_ids (t ∷ ts) = t ∷ ts

-- The indicators that a widget shows, as `current`.
abbrev pub current_items : List Text → Fields → List Text
current_items all_ids fs = or_all all_ids (strings_of (get (codes "items") fs))

abbrev pub is_widget : Fields → Bool
is_widget fs = text_is widget_id (as_str (get (codes "id") fs))

-- The list that replaces the items of an object, if one does.
unfoldable pub kept_items : List Text → Fields → Option (List Text)
kept_items all_ids fs =
    let current = current_items all_ids fs in
    if is_widget fs && any is_dictation current
    then some (filter (λ t. not (is_dictation t)) current)
    else none

abbrev pub replace_items : Option (List Text) → Fields × Bool → Json × Bool
replace_items none (fs, changed) = (object fs, changed)
replace_items (some kept) (fs, changed) =
    (object (insert (codes "items") (array (array_of kept)) fs), true)

-- `without_dictation_indicator`. The source puts the new items in place before it goes through the
-- object's values; there is nothing for it to find in them, since they are strings.
unfoldable mutual
  unfolding kept_items

  pub without_dictation_indicator : List Text → Json → Json × Bool
  without_dictation_indicator all_ids (object fs) =
      replace_items (kept_items all_ids fs) (without_in_fields all_ids fs)
  without_dictation_indicator all_ids (array items) =
      let (items', changed) = without_in_items all_ids items in (array items', changed)
  without_dictation_indicator all_ids null = (null, false)
  without_dictation_indicator all_ids (boolean b) = (boolean b, false)
  without_dictation_indicator all_ids (number n) = (number n, false)
  without_dictation_indicator all_ids (string t) = (string t, false)

  pub without_in_items : List Text → Items → Items × Bool
  without_in_items all_ids nil = (nil, false)
  without_in_items all_ids (cons v rest) =
      let (v', c) = without_dictation_indicator all_ids v in
      let (rest', d) = without_in_items all_ids rest in (cons v' rest', d || c)

  pub without_in_fields : List Text → Fields → Fields × Bool
  without_in_fields all_ids end = (end, false)
  without_in_fields all_ids (field k v rest) =
      let (v', c) = without_dictation_indicator all_ids v in
      let (rest', d) = without_in_fields all_ids rest in (field k v' rest', d || c)

abbrev pub option_values : Items → List Text
option_values nil = []
option_values (cons v rest) =
    and_string (as_str (some (index (codes "value") v))) (option_values rest)

abbrev pub options_of : Json → List Text
options_of (array options) = option_values options
options_of _ = []

abbrev pub items_options : Items → List Text
items_options nil = []
items_options (cons f rest) =
    if text_is (codes "items") (as_str (some (index (codes "key") f)))
    then options_of (index (codes "options") f) ++ items_options rest
    else items_options rest

abbrev pub schema_ids : Json → List Text
schema_ids (array schema) = items_options schema
schema_ids _ = []

-- `indicator_ids_from_manifest`.
unfoldable pub indicator_ids_from_manifest : Json → List Text
indicator_ids_from_manifest manifest =
    schema_ids (index (codes "schema") (index (codes "barWidget") manifest))

-- `omarchy_indicator_ids`, of the manifest if it could be read.
unfoldable pub omarchy_indicator_ids : Option Json → List Text
unfolding indicator_ids_from_manifest
omarchy_indicator_ids manifest =
    or_all
      (codes "Dictation"
        ∷ codes "ScreenRecording"
        ∷ codes "Reminder"
        ∷ codes "NightLight"
        ∷ codes "Dnd"
        ∷ codes "StayAwake"
        ∷ [])
      (elim manifest [ none ↦ [] | some m ↦ indicator_ids_from_manifest m ])
