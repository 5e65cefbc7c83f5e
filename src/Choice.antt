-- ===== src/Choice.antt =====
-- Config values that take one of a fixed set of keywords: the trait `ConfigChoice` and the enums of
-- crates/daemon/src/config.rs that are nothing else. The other modules have the remaining instances.
use whispy.Base.{Option, some, List, [], ◌∷◌, ◌≡◌, refl, find, list_eq}
use whispy.Text.{Text, codes}

-- `ConfigChoice`. The law: no keyword belongs to two values, and every value is listed.
pub record ConfigChoice (A : Type 0) : Type 0 where
  pub all_values : List A
  pub as_str : A → Text
  pub parsed_back : (c : A) → find (λ d. list_eq (as_str d) (as_str c)) all_values ≡ some c

abbrev pub as_str : {A : Type 0} ⦃choice : ConfigChoice A⦄ → A → Text
as_str ⦃choice⦄ = choice.as_str

-- `ConfigChoice::parse`.
unfoldable pub parse : {A : Type 0} ⦃choice : ConfigChoice A⦄ → Text → Option A
parse ⦃choice⦄ value = find (λ c. list_eq (choice.as_str c) value) choice.all_values

-- `NotifyMode`.
pub data NotifyMode : Type 0 where
  auto on off : NotifyMode

abbrev pub notify_str : NotifyMode → Text
notify_str auto = codes "auto"
notify_str on = codes "on"
notify_str off = codes "off"

pub notify_back :
    (c : NotifyMode)
    → find (λ d. list_eq (notify_str d) (notify_str c)) (auto ∷ on ∷ off ∷ []) ≡ some c
notify_back auto = refl
notify_back on = refl
notify_back off = refl

instance abbrev pub notify_choice : ConfigChoice NotifyMode
notify_choice = record {
  all_values = auto ∷ on ∷ off ∷ [];
  as_str = notify_str;
  parsed_back = notify_back;
}

-- `ComputeBackend`.
pub data ComputeBackend : Type 0 where
  auto vulkan cpu : ComputeBackend

abbrev pub compute_str : ComputeBackend → Text
compute_str auto = codes "auto"
compute_str vulkan = codes "vulkan"
compute_str cpu = codes "cpu"

pub compute_back :
    (c : ComputeBackend)
    → find (λ d. list_eq (compute_str d) (compute_str c)) (ComputeBackend.auto ∷ vulkan ∷ cpu ∷ [])
      ≡ some c
compute_back auto = refl
compute_back vulkan = refl
compute_back cpu = refl

instance abbrev pub compute_choice : ConfigChoice ComputeBackend
compute_choice = record {
  all_values = ComputeBackend.auto ∷ vulkan ∷ cpu ∷ [];
  as_str = compute_str;
  parsed_back = compute_back;
}
