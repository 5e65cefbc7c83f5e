-- ===== src/Text/Words.antt =====
-- `str::split_whitespace` and `[String]::join`.
use whispy.Base.{
  ℕ, Bool, true, false, not, ◌&&◌, List, [], ◌∷◌, ◌++◌, ◌≡◌, refl, ap, ◌∙◌, sym, arith,
  if◌then◌else◌, all, Bool-cases, inl, inr, &&-true, not-true, append-nil, append_assoc,
}
use whispy.Text.{Text, is_whitespace}

abbrev pub flush : Text → List Text → List Text
flush [] ws = ws
flush (c ∷ cs) ws = (c ∷ cs) ∷ ws

-- The words of a text that follows the characters of an unfinished word.
unfoldable pub words_from : Text → Text → List Text
words_from cur [] = flush cur []
words_from cur (c ∷ s) =
    let next = words_from (if is_whitespace c then [] else cur ++ (c ∷ [])) s in
    if is_whitespace c then flush cur next else next

-- `split_whitespace`.
unfoldable pub split_whitespace : Text → List Text
unfolding words_from
split_whitespace s = words_from [] s

-- `join`.
unfoldable pub join : Text → List Text → Text
join sep [] = []
join sep (w ∷ []) = w
join sep (w ∷ v ∷ ws) = w ++ (sep ++ join sep (v ∷ ws))

abbrev pub is_empty : Text → Bool
is_empty [] = true
is_empty (_ ∷ _) = false

-- A word is not empty, and holds no white space.
unfoldable pub is_word : Text → Bool
is_word w = not (is_empty w) && all (λ c. not (is_whitespace c)) w

-- The words of a text are words.
flush_words :
    (cur : Text) (ws : List Text)
    → all (λ c. not (is_whitespace c)) cur ≡ true
    → all is_word ws ≡ true
    → all is_word (flush cur ws) ≡ true
unfolding is_word
flush_words [] ws h hs = hs
flush_words (c ∷ cur) ws h hs = ground (arith, h, hs)

all-snoc :
    (cur : Text) (c : ℕ)
    → all (λ c. not (is_whitespace c)) cur ≡ true
    → is_whitespace c ≡ false
    → all (λ c. not (is_whitespace c)) (cur ++ (c ∷ [])) ≡ true
all-snoc [] c h w = ground arith
all-snoc (x ∷ cur) c h w = ground (arith, all-snoc cur c)

words_from_words :
    (cur s : Text)
    → all (λ c. not (is_whitespace c)) cur ≡ true
    → all is_word (words_from cur s) ≡ true
unfolding words_from is_word
words_from_words [] [] h = refl
words_from_words (c ∷ cur) [] h = ground arith
words_from_words cur (c ∷ s) h = elim (Bool-cases (is_whitespace c)) [
  | inl w ↦ rw w (flush_words cur _ h (words_from_words [] s refl))
  | inr w ↦ rw w (words_from_words (cur ++ (c ∷ [])) s (all-snoc cur c h w))
]

pub split_whitespace_words : (s : Text) → all is_word (split_whitespace s) ≡ true
unfolding split_whitespace
split_whitespace_words s = words_from_words [] s refl

words_from-append :
    (cur w s : Text)
    → all (λ c. not (is_whitespace c)) w ≡ true
    → words_from cur (w ++ s) ≡ words_from (cur ++ w) s
unfolding words_from
words_from-append cur [] s h = ap (λ o. words_from o s) (sym (append-nil cur))
words_from-append cur (c ∷ w) s h =
    let (plain, rest) = &&-true (not (is_whitespace c)) _ h in
    rw (not-true (is_whitespace c) plain) (
      words_from-append (cur ++ (c ∷ [])) w s rest
      ∙ ap (λ o. words_from o s) (append_assoc cur (c ∷ []) w))

flush-word : (w : Text) (ws : List Text) → is_word w ≡ true → flush w ws ≡ w ∷ ws
unfolding is_word
flush-word [] ws h = cc
flush-word (c ∷ w) ws h = refl

words_from-word : (w s : Text) → is_word w ≡ true → words_from [] (w ++ s) ≡ words_from w s
unfolding is_word
words_from-word w s h = words_from-append [] w s (&&-true (not (is_empty w)) _ h).1

words_from-blank : (w s : Text) → words_from w (32 ∷ s) ≡ flush w (split_whitespace s)
unfolding words_from split_whitespace is_whitespace
words_from-blank w s = refl

-- Words joined by a blank are read back.
pub split_whitespace-join :
    (ws : List Text) → all is_word ws ≡ true → split_whitespace (join (32 ∷ []) ws) ≡ ws
unfolding split_whitespace join
split_whitespace-join [] h = refl
split_whitespace-join (w ∷ []) h =
    let (word, rest) = &&-true (is_word w) _ h in
    ap split_whitespace (sym (append-nil w)) ∙ words_from-word w [] word ∙ flush-word w [] word
split_whitespace-join (w ∷ v ∷ ws) h =
    let (word, rest) = &&-true (is_word w) _ h in
    words_from-word w (32 ∷ join (32 ∷ []) (v ∷ ws)) word
    ∙ words_from-blank w (join (32 ∷ []) (v ∷ ws))
    ∙ ap (flush w) (split_whitespace-join (v ∷ ws) rest)
    ∙ flush-word w (v ∷ ws) word
