-- ===== src/Settings/Sources.antt =====
-- The choices of the Microphone section: crates/daemon/src/settings/sources.rs, with the outputs of `pactl`
-- and the text of a JSON value as arguments.
use whispy.Base.{
  Bool, ℕ, ◌&&◌, not, Option, none, some, List, [], ◌∷◌, ◌++◌, map, any, find, position, list_eq,
  if◌then◌else◌,
}
use whispy.Desktop.Adapters.{Output, stdout_of, and_then, non_empty}
use whispy.Json.{Json, array, Items, nil, cons, as_str, index, text_is}
use whispy.Settings.Form.{Choice}
use whispy.Text.Words.{is_empty}
use whispy.Text.Utf8.{from_utf8_lossy}
use whispy.Text.{Text, codes, trim}

-- `Source`.
pub record Source : Type 0 where
  pub name : Text
  pub description : Text

abbrev pub described : Text → Option Source → Text
described d none = d
described d (some s) = s.description

abbrev pub default_detail : List Source → Option Text → Text
default_detail sources none = []
default_detail sources (some d) =
    codes "now: " ++ described d (find (λ (s : Source). list_eq s.name d) sources)

abbrev pub or_zero : Option ℕ → ℕ
or_zero none = 0
or_zero (some i) = i

-- The last line of `radio` and of `microphone_choices`.
unfoldable pub chosen_among : List Choice → Text → ℕ
chosen_among choices current = or_zero (position (λ (c : Choice). list_eq c.value current) choices)

abbrev pub source_choice : Source → Choice
source_choice s = record { label = s.description; value = s.name; detail = s.name }

-- The choices that are there whatever is configured.
abbrev pub present_choices : List Source → Option Text → List Choice
present_choices sources default =
    record { label = codes "System default"; value = []; detail = default_detail sources default }
    ∷ map source_choice sources

abbrev pub not_connected : Text → Choice
not_connected current = record { label = current; value = current; detail = codes "not connected" }

-- `microphone_choices`.
unfoldable pub microphone_choices : List Source → Option Text → Text → List Choice × ℕ
unfolding chosen_among
microphone_choices sources default current =
    let present = present_choices sources default in
    let choices =
      if not (is_empty current) && not (any (λ (s : Source). list_eq s.name current) sources)
      then present ++ (not_connected current ∷ [])
      else present in
    (choices, chosen_among choices current)

abbrev monitor_class : Json → Bool
monitor_class s =
    text_is (codes "monitor")
      (as_str (some (index (codes "device.class") (index (codes "properties") s))))

abbrev or_name : Text → Option Text → Text
or_name name none = name
or_name name (some d) = d

abbrev source_of : Json → Option Source
source_of s = elim (as_str (some (index (codes "name") s))) [
  | none ↦ none
  | some name ↦ some (record {
    name = name;
    description = or_name name (as_str (some (index (codes "description") s)));
  })
]

abbrev with_source : Option Source → List Source → List Source
with_source none rest = rest
with_source (some s) rest = s ∷ rest

abbrev sources_in : Items → List Source
sources_in nil = []
sources_in (cons v rest) =
    if monitor_class v then sources_in rest else with_source (source_of v) (sources_in rest)

-- `parse_sources`.
unfoldable pub parse_sources : (Text → Option Json) → Text → List Source
parse_sources parse_json text = elim (parse_json text) [
  | some (array items) ↦ sources_in items
  | _ ↦ []
]

abbrev listed_by : (Text → Option Json) → Output → List Source
listed_by parse_json o = elim (stdout_of o) [
  | none ↦ []
  | some out ↦ parse_sources parse_json (from_utf8_lossy out)
]

-- `list`, of the outputs of its two calls.
unfoldable pub list : (Text → Option Json) → Output → Output → List Source × Option Text
unfolding parse_sources
list parse_json sources default = (
  listed_by parse_json sources,
  and_then (stdout_of default) (λ out. non_empty (trim (from_utf8_lossy out))),
)
