-- ===== src/Vocab/Tokens.antt =====
-- One word of the vocabulary or of a transcript: its keys, its Soundex code, its case and its
-- punctuation, in crates/daemon/src/vocab.rs.
use whispy.Base.{
  ℕ, zero, suc, Bool, false, ◌&&◌, not, Option, none, some, List, [], ◌∷◌, ◌++◌, any, all, length,
  list_eq, ltb, ◌==◌, if◌then◌else◌,
}
use whispy.Text.Chars.{Chars}
use whispy.Text.Words.{is_empty}
use whispy.Text.{
  Text, codes, is_ascii_alphabetic, is_ascii_alphanumeric, to_ascii_lowercase, to_ascii_uppercase,
}

-- `Key`.
pub record Key : Type 0 where
  pub word : ℕ
  pub key : Text

-- The closure `digit` of `soundex`.
unfoldable pub digit : ℕ → ℕ
digit c =
    if any (λ x. x == c) (codes "bfpv")
    then b'1'
    else if any (λ x. x == c) (codes "cgjkqsxz")
    then b'2'
    else if any (λ x. x == c) (codes "dt")
    then b'3'
    else if any (λ x. x == c) (codes "l")
    then b'4'
    else if any (λ x. x == c) (codes "mn")
    then b'5'
    else if any (λ x. x == c) (codes "r")
    then b'6'
    else b'0'

-- The loop of `soundex`, on the first `len` codes.
unfoldable pub soundex_loop : Text → Text → ℕ → Text
unfolding digit
soundex_loop [] code last = code
soundex_loop (b ∷ bs) code last =
    let d = digit b in
    let more = not (d == b'0') && not (d == last) in
    let rest =
      soundex_loop bs (if more then code ++ (d ∷ []) else code)
        (if not (b == b'h') && not (b == b'w') then d else last) in
    if length code == 4 then code else rest

-- The array starts as four zeros.
abbrev pub padded : ℕ → Text → Text
padded zero code = code
padded (suc n) [] = b'0' ∷ padded n []
padded (suc n) (c ∷ code) = c ∷ padded n code

abbrev pub lowered : Text → Text
lowered [] = []
lowered (c ∷ cs) = to_ascii_lowercase c ∷ lowered cs

-- `soundex`.
unfoldable pub soundex : Text → Option Text
unfolding soundex_loop
soundex [] = none
soundex (c ∷ cs) =
    if not (all is_ascii_alphabetic (c ∷ cs))
    then none
    else let b = to_ascii_lowercase c in
      some (padded 4 (soundex_loop (lowered cs) (to_ascii_uppercase b ∷ []) (digit b)))

-- `is_ascii_key`.
unfoldable pub is_ascii_key : Text → Bool
is_ascii_key key = not (is_empty key) && all is_ascii_alphanumeric key

-- `word.replace('&', " and ")`.
abbrev pub spell_and : Text → Text
spell_and [] = []
spell_and (c ∷ cs) = if c == b'&' then codes " and " ++ spell_and cs else c ∷ spell_and cs

module _ (u : Chars) where
  -- `match_key`.
  unfoldable pub match_key : Text → Text
  match_key [] = []
  match_key (c ∷ cs) =
      if u.is_alphanumeric c then u.char_to_lowercase c ++ match_key cs else match_key cs

  -- `keys_for`.
  unfoldable pub keys_for : Text → ℕ → List Key
  unfolding match_key is_ascii_key
  keys_for word index =
      let primary = match_key word in
      let expanded = match_key (spell_and word) in
      (if is_ascii_key primary then record { word = index; key = primary } ∷ [] else [])
      ++ (if any (λ c. c == b'&') word && (is_ascii_key expanded && not (list_eq expanded primary))
          then record { word = index; key = expanded } ∷ []
          else [])

  unfoldable pub keys_from : ℕ → List Text → List Key
  unfolding keys_for
  keys_from i [] = []
  keys_from i (w ∷ ws) = keys_for w i ++ keys_from (suc i) ws

  -- The letters of `keep_case`.
  abbrev pub letters : Text → Text
  letters [] = []
  letters (c ∷ cs) = if u.is_alphabetic c then c ∷ letters cs else letters cs

  abbrev pub capitalized : Text → Text
  capitalized [] = []
  capitalized (c ∷ cs) = u.char_to_uppercase c ++ cs

  abbrev pub is_capitalized : Text → Bool
  is_capitalized [] = false
  is_capitalized (c ∷ cs) = u.is_uppercase c

  -- `keep_case`.
  unfoldable pub keep_case : Text → Text → Text
  keep_case original replacement =
      let ls = letters original in
      if not (is_empty ls) && (all u.is_uppercase ls && ltb 1 (length original))
      then u.to_uppercase replacement
      else if is_capitalized original
      then capitalized replacement
      else replacement

  -- The characters before the first that is alphanumeric, and those behind the last.
  abbrev pub lead : Text → Text
  lead [] = []
  lead (c ∷ cs) = if u.is_alphanumeric c then [] else c ∷ lead cs

  abbrev pub trail : Text → Text
  trail [] = []
  trail (c ∷ cs) =
      let rest = trail cs in
      if any u.is_alphanumeric cs then rest else if u.is_alphanumeric c then cs else c ∷ cs

  -- `split_punctuation`.
  unfoldable pub split_punctuation : Text → Text × Text
  split_punctuation word =
      if any u.is_alphanumeric word then (lead word, trail word) else (word, [])
