-- ===== src/Json.antt =====
-- JSON values (`serde_json::Value`, whose maps are sorted by their keys), which several programs that the
-- daemon and its setup run print.
use whispy.Base.{Bool, true, false, Option, none, some, [], ◌∷◌, ltb, ◌==◌, list_eq, if◌then◌else◌}
use whispy.Text.{Text}

-- `serde_json::Value`; a number is known by its text.
mutual
  pub data Json : Type 0 where
    null : Json
    boolean : Bool → Json
    number string : Text → Json
    array : Items → Json
    object : Fields → Json

  pub data Items : Type 0 where
    nil : Items
    cons : Json → Items → Items

  pub data Fields : Type 0 where
    end : Fields
    field : Text → Json → Fields → Fields

-- `map.get(key)`.
abbrev pub get : Text → Fields → Option Json
get key end = none
get key (field k v rest) = if list_eq k key then some v else get key rest

abbrev pub text_lt : Text → Text → Bool
text_lt [] [] = false
text_lt [] (y ∷ ys) = true
text_lt (x ∷ xs) [] = false
text_lt (x ∷ xs) (y ∷ ys) = if x == y then text_lt xs ys else ltb x y

-- `map.insert(key, value)`.
abbrev pub insert : Text → Json → Fields → Fields
insert key value end = field key value end
insert key value (field k v rest) =
    if list_eq k key
    then field k value rest
    else if text_lt key k
    then field key value (field k v rest)
    else field k v (insert key value rest)

-- `as_str` and `as_bool`.
abbrev pub as_str : Option Json → Option Text
as_str (some (string t)) = some t
as_str _ = none

abbrev pub as_bool : Option Json → Option Bool
as_bool (some (boolean b)) = some b
as_bool _ = none

-- `value[key]`.
abbrev pub index : Text → Json → Json
index key (object fs) = elim (get key fs) [ none ↦ null | some v ↦ v ]
index key _ = null

-- Whether an optional text is the given one.
abbrev pub text_is : Text → Option Text → Bool
text_is t none = false
text_is t (some s) = list_eq s t
