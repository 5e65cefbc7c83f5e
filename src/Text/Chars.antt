-- ===== src/Text/Chars.antt =====
-- The Unicode tables of the standard library that the source consults. They are too large to state,
-- so the definitions take them as an argument; `ascii` is their restriction to ASCII.
use whispy.Base.{ℕ, Bool, [], ◌∷◌, map}
use whispy.Text.{
  Text, is_ascii_alphabetic, is_ascii_alphanumeric, to_ascii_lowercase, to_ascii_uppercase, within,
}

pub record Chars : Type 0 where
  -- `char::is_alphanumeric`, `is_alphabetic`, `is_uppercase`.
  pub is_alphanumeric : ℕ → Bool
  pub is_alphabetic : ℕ → Bool
  pub is_uppercase : ℕ → Bool
  -- `char::to_lowercase` and `to_uppercase`, which may give several characters.
  pub char_to_lowercase : ℕ → Text
  pub char_to_uppercase : ℕ → Text
  -- `str::to_lowercase` and `to_uppercase`, which look at the context of a final sigma.
  pub to_lowercase : Text → Text
  pub to_uppercase : Text → Text

abbrev pub ascii : Chars
ascii = record {
  is_alphanumeric = is_ascii_alphanumeric;
  is_alphabetic = is_ascii_alphabetic;
  is_uppercase = λ c. within b'A' b'Z' c;
  char_to_lowercase = λ c. to_ascii_lowercase c ∷ [];
  char_to_uppercase = λ c. to_ascii_uppercase c ∷ [];
  to_lowercase = map to_ascii_lowercase;
  to_uppercase = map to_ascii_uppercase;
}
