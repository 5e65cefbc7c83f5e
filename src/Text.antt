-- ===== src/Text.antt =====
-- Strings of the source as lists of code points, and byte strings as lists of bytes.
pub mod Chars
pub mod Utf8
pub mod Split
pub mod Words
pub mod Encode
pub mod Decimal
pub mod Number
use Prim.Native.Char.{code}
use Prim.Native.String.{String}
use whispy.Base.{ℕ, ◌+◌, ◌-◌, Bool, ◌&&◌, ◌||◌, List, [], ◌∷◌, leb, ◌==◌, if◌then◌else◌}

-- A `String`: its `char`s.
abbrev pub Text : Type 0
Text = List ℕ

abbrev pub Bytes : Type 0
Bytes = List ℕ

-- A string literal.
abbrev pub codes : String → Text
codes String.[] = []
codes (String.◌∷◌ c s) = code c ∷ codes s

abbrev pub within : ℕ → ℕ → ℕ → Bool
within lo hi c = leb lo c && leb c hi

-- `char::is_ascii_alphabetic`, `char::is_ascii_alphanumeric`.
abbrev pub is_ascii_alphabetic : ℕ → Bool
is_ascii_alphabetic c = within b'a' b'z' c || within b'A' b'Z' c

abbrev pub is_ascii_alphanumeric : ℕ → Bool
is_ascii_alphanumeric c = is_ascii_alphabetic c || within b'0' b'9' c

-- `char::is_ascii_punctuation`: !"#$%&'()*+,-./ :;<=>?@ [\]^_` {|}~.
abbrev pub is_ascii_punctuation : ℕ → Bool
is_ascii_punctuation c = within 33 47 c || within 58 64 c || within 91 96 c || within 123 126 c

-- `char::to_ascii_lowercase`, and its text form.
abbrev pub to_ascii_lowercase : ℕ → ℕ
to_ascii_lowercase c = if within b'A' b'Z' c then c + 32 else c

abbrev pub to_ascii_uppercase : ℕ → ℕ
to_ascii_uppercase c = if within b'a' b'z' c then c - 32 else c

-- `char::is_whitespace`: Unicode's `White_Space`.
unfoldable pub is_whitespace : ℕ → Bool
is_whitespace c =
    within 9 13 c
    || c == 32
    || c == 133
    || c == 160
    || c == 5760
    || within 8192 8202 c
    || c == 8232
    || c == 8233
    || c == 8239
    || c == 8287
    || c == 12288

-- `str::trim_start`, and `str::trim_end` by the last character that stays.
abbrev pub trim_start : Text → Text
trim_start [] = []
trim_start (c ∷ cs) = if is_whitespace c then trim_start cs else c ∷ cs

abbrev pub push_trimmed : ℕ → Text → Text
push_trimmed c [] = if is_whitespace c then [] else c ∷ []
push_trimmed c (d ∷ ds) = c ∷ d ∷ ds

abbrev pub trim_end : Text → Text
trim_end [] = []
trim_end (c ∷ cs) = push_trimmed c (trim_end cs)

-- `str::trim`.
abbrev pub trim : Text → Text
trim s = trim_end (trim_start s)
