-- ===== src/Text/Split.antt =====
-- The `str` methods that the source parses with, over lists of code points.
use whispy.Base.{ℕ, Option, none, some, List, [], ◌∷◌, ◌==◌, if◌then◌else◌}

abbrev Text : Type 0
Text = List ℕ

-- `str::split_once(c)`.
abbrev pub split_once : ℕ → Text → Option (Text × Text)
split_once c [] = none
split_once c (x ∷ xs) =
    let rest = split_once c xs in
    if x == c then some ([], xs) else elim rest [ none ↦ none | some (a, b) ↦ some (x ∷ a, b) ]

-- Put a character in front of the first piece.
abbrev pub cons_piece : ℕ → List Text → List Text
cons_piece x [] = (x ∷ []) ∷ []
cons_piece x (p ∷ ps) = (x ∷ p) ∷ ps

-- `str::split(c)`: at least one piece.
abbrev pub split : ℕ → Text → List Text
split c [] = [] ∷ []
split c (x ∷ xs) = if x == c then [] ∷ split c xs else cons_piece x (split c xs)

-- `str::trim_matches(c)`.
abbrev pub trim_start_matches : ℕ → Text → Text
trim_start_matches c [] = []
trim_start_matches c (x ∷ xs) = if x == c then trim_start_matches c xs else x ∷ xs

abbrev pub push_unmatched : ℕ → ℕ → Text → Text
push_unmatched c x [] = if x == c then [] else x ∷ []
push_unmatched c x (y ∷ ys) = x ∷ y ∷ ys

abbrev pub trim_end_matches : ℕ → Text → Text
trim_end_matches c [] = []
trim_end_matches c (x ∷ xs) = push_unmatched c x (trim_end_matches c xs)

abbrev pub trim_matches : ℕ → Text → Text
trim_matches c s = trim_end_matches c (trim_start_matches c s)

-- `str::strip_prefix`.
abbrev pub strip_prefix : Text → Text → Option Text
strip_prefix [] xs = some xs
strip_prefix (p ∷ ps) [] = none
strip_prefix (p ∷ ps) (x ∷ xs) = if x == p then strip_prefix ps xs else none

-- `str::lines`: the pieces that a newline ends, each less one carriage return at its end, and a
-- last piece with no newline as it stands, unless it is empty.
abbrev pub strip_cr : Text → Text
strip_cr [] = []
strip_cr (x ∷ []) = if x == b'\r' then [] else x ∷ []
strip_cr (x ∷ y ∷ ys) = x ∷ strip_cr (y ∷ ys)

abbrev pub terminated : List Text → List Text
terminated [] = []
terminated ([] ∷ []) = []
terminated ((c ∷ cs) ∷ []) = (c ∷ cs) ∷ []
terminated (p ∷ q ∷ ps) = strip_cr p ∷ terminated (q ∷ ps)

abbrev pub lines : Text → List Text
lines s = terminated (split b'\n' s)
