-- ===== src/Vocab/American.antt =====
-- `soundex` of crates/daemon/src/vocab.rs against American Soundex as it is told in words.
use whispy.Base.{
  ℕ, zero, suc, ◌+◌, ◌-◌, ◌≤◌, ◌<◌, Bool, true, false, ◌&&◌, not, Option, none, some, [], ◌∷◌, ◌++◌,
  ◌≡◌, ◌≢◌, ◌⊎◌, inl, inr, refl, sym, ◌∙◌, ap, subst, arith, all, map, filter, take, get_elem?,
  length, length-append, append_assoc, append-nil, Bool-cases, if◌then◌else◌, &&-true, ◌==◌,
  some_inj,
}
use whispy.Text.{Text, codes, within, is_ascii_alphabetic, to_ascii_lowercase, to_ascii_uppercase}
use whispy.Vocab.Soundex.{Code, soundex-shape}
use whispy.Vocab.Tokens.{digit, soundex, soundex_loop, padded, lowered}

abbrev or_zero : Option ℕ → ℕ
or_zero none = b'0'
or_zero (some d) = d

-- The digit of a small letter, by its place in the alphabet.
unfoldable pub letter_digit : ℕ → ℕ
letter_digit c = or_zero (get_elem? (codes "01230120022455012623010202") (c - b'a'))

abbrev is_separating : ℕ → Bool
is_separating c = not (c == b'h') && not (c == b'w')

-- One digit for each letter, h and w passed over.
abbrev sounds : (ℕ → ℕ) → Text → Text
sounds digit_of bs = map digit_of (filter is_separating bs)

-- One digit for each run of equal digits, the run that `last` stands in left out.
abbrev changes : ℕ → Text → Text
changes last [] = []
changes last (d ∷ ds) = if d == last then changes d ds else d ∷ changes d ds

abbrev is_voiced : ℕ → Bool
is_voiced d = not (d == b'0')

abbrev digits : (ℕ → ℕ) → ℕ → Text → Text
digits digit_of last bs = filter is_voiced (changes last (sounds digit_of bs))

-- The first letter as a capital; then the digits of the letters behind it: those of h and w are
-- passed over, runs of one digit count once, also where the first letter starts the run, and zeros
-- are left out; three of them, filled up with zeros.
unfoldable pub american : Text → Text
unfolding letter_digit
american [] = []
american (c ∷ cs) =
    to_ascii_uppercase c
    ∷ take 3 (
        digits letter_digit (letter_digit (to_ascii_lowercase c)) (map to_ascii_lowercase cs)
        ++ codes "000")

take_full : (n : ℕ) (ds es : Text) → length ds ≡ n → take n (ds ++ es) ≡ ds
take_full zero [] es e = refl
take_full zero (d ∷ ds) es e = absurd (omega arith)
take_full (suc n) [] es e = absurd (omega arith)
take_full (suc n) (d ∷ ds) es e = ap (◌∷◌ d) (take_full n ds es (omega arith))

take-nil : (n : ℕ) (ds : Text) → length ds ≤ n → take n ds ≡ ds
take-nil zero [] h = refl
take-nil zero (d ∷ ds) h = absurd (omega arith)
take-nil (suc n) [] h = refl
take-nil (suc n) (d ∷ ds) h = ap (◌∷◌ d) (take-nil n ds (omega arith))

digit_silent : (b : ℕ) → is_separating b ≡ false → digit b ≡ b'0'
unfolding digit
digit_silent b h = ground arith

-- The digits of the rest, one letter on.
digits_separating :
    (b last : ℕ) (bs : Text)
    → is_separating b ≡ true
    → digits digit last (b ∷ bs) ≡ (
        if not (digit b == b'0') && not (digit b == last)
        then digit b ∷ digits digit (digit b) bs
        else digits digit (digit b) bs)
digits_separating b last bs h = rw h (elim (Bool-cases (digit b == last)) [
  | inl same ↦ rw same (ground arith)
  | inr other ↦ rw other (elim (Bool-cases (digit b == b'0')) [
    | inl silent ↦ rw silent refl
    | inr voiced ↦ rw voiced refl
  ])
])

digits_more :
    (b last : ℕ) (bs : Text)
    → is_separating b ≡ true
    → (not (digit b == b'0') && not (digit b == last)) ≡ true
    → digits digit last (b ∷ bs) ≡ digit b ∷ digits digit (digit b) bs
digits_more b last bs sep more =
    digits_separating b last bs sep
    ∙ ap (λ t. if t then digit b ∷ digits digit (digit b) bs else digits digit (digit b) bs) more

digits_same :
    (b last : ℕ) (bs : Text)
    → is_separating b ≡ true
    → (not (digit b == b'0') && not (digit b == last)) ≡ false
    → digits digit last (b ∷ bs) ≡ digits digit (digit b) bs
digits_same b last bs sep same =
    digits_separating b last bs sep
    ∙ ap (λ t. if t then digit b ∷ digits digit (digit b) bs else digits digit (digit b) bs) same

loop_more :
    (b last : ℕ) (bs code : Text)
    → (length code == 4) ≡ false
    → is_separating b ≡ true
    → (not (digit b == b'0') && not (digit b == last)) ≡ true
    → soundex_loop (b ∷ bs) code last ≡ soundex_loop bs (code ++ (digit b ∷ [])) (digit b)
unfolding soundex_loop
loop_more b last bs code room sep more = rw (room, sep, more) refl

loop_same :
    (b last : ℕ) (bs code : Text)
    → (length code == 4) ≡ false
    → is_separating b ≡ true
    → (not (digit b == b'0') && not (digit b == last)) ≡ false
    → soundex_loop (b ∷ bs) code last ≡ soundex_loop bs code (digit b)
unfolding soundex_loop
loop_same b last bs code room sep same = rw (room, sep, same) refl

soundex_loop-digits :
    (bs : Text) (x : ℕ) (ds : Text) (last : ℕ)
    → length ds ≤ 3
    → soundex_loop bs (x ∷ ds) last ≡ x ∷ take 3 (ds ++ digits digit last bs)
unfolding soundex_loop
soundex_loop-digits [] x ds last le =
    ap (◌∷◌ x) (sym (ap (take 3) (append-nil ds) ∙ take-nil 3 ds le))
soundex_loop-digits (b ∷ bs) x ds last le = elim (Bool-cases (length (x ∷ ds) == 4)) [
  | inl full ↦ rw full (ap (◌∷◌ x) (sym (take_full 3 ds _ (ground arith))))
  | inr room ↦ elim (Bool-cases (is_separating b)) [
    | inr silent ↦ rw (room, silent, digit_silent b silent) (soundex_loop-digits bs x ds last le)
    | inl sep ↦ elim (Bool-cases (not (digit b == b'0') && not (digit b == last))) [
      | inl more ↦
          loop_more b last bs (x ∷ ds) room sep more
          ∙ soundex_loop-digits bs x (ds ++ (digit b ∷ [])) (digit b)
              (ground (arith, length-append ds (digit b ∷ [])))
          ∙ ap (λ es. x ∷ take 3 es)
              (append_assoc ds (digit b ∷ []) (digits digit (digit b) bs)
                ∙ ap (◌++◌ ds) (sym (digits_more b last bs sep more)))
      | inr same ↦
          loop_same b last bs (x ∷ ds) room sep same
          ∙ soundex_loop-digits bs x ds (digit b) le
          ∙ ap (λ es. x ∷ take 3 (ds ++ es)) (sym (digits_same b last bs sep same))
    ]
  ]
]

padded-take : (ys : Text) → padded 3 (take 3 ys) ≡ take 3 (ys ++ codes "000")
padded-take [] = refl
padded-take (a ∷ []) = refl
padded-take (a ∷ b ∷ []) = refl
padded-take (a ∷ b ∷ c ∷ ys) = refl

abbrev all_below : ℕ → (ℕ → Bool) → Bool
all_below zero p = true
all_below (suc n) p = p n && all_below n p

below : (n : ℕ) (p : ℕ → Bool) (k : ℕ) → all_below n p ≡ true → k < n → p k ≡ true
below zero p k h lt = absurd (omega arith)
below (suc n) p k h lt =
    let (here, rest) = &&-true (p n) _ h in
    elim (Bool-cases (k == n)) [
      | inl e ↦ ground (arith, here)
      | inr ne ↦ below n p k rest (ground arith)
    ]

table : all_below 26 (λ k. digit (k + 97) == letter_digit (k + 97)) ≡ true
unfolding digit letter_digit
table = refl

digit_lem : (c : ℕ) → within b'a' b'z' c ≡ true → digit c ≡ letter_digit c
digit_lem c h =
    let k : ℕ = c - 97 in
    let e : k + 97 ≡ c = ground arith in
    let t = below 26 (λ k. digit (k + 97) == letter_digit (k + 97)) k table (ground arith) in
    subst (λ n. digit n ≡ letter_digit n) e (ground (arith, t))

lower_within :
    (c : ℕ) → is_ascii_alphabetic c ≡ true → within b'a' b'z' (to_ascii_lowercase c) ≡ true
lower_within c h = ground arith

upper-lower :
    (c : ℕ)
    → is_ascii_alphabetic c ≡ true
    → to_ascii_uppercase (to_ascii_lowercase c) ≡ to_ascii_uppercase c
upper-lower c h = ground arith

sounds_lem :
    (cs : Text)
    → all is_ascii_alphabetic cs ≡ true
    → sounds digit (lowered cs) ≡ sounds letter_digit (map to_ascii_lowercase cs)
sounds_lem [] h = refl
sounds_lem (c ∷ cs) h =
    let (here, rest) = &&-true (is_ascii_alphabetic c) _ h in
    let ih = sounds_lem cs rest in
    elim (Bool-cases (is_separating (to_ascii_lowercase c))) [
      | inl sep ↦ rw sep (
          rw (digit_lem _ (lower_within c here))
            (ap (◌∷◌ (letter_digit (to_ascii_lowercase c))) ih))
      | inr silent ↦ rw silent ih
    ]

soundex_letters :
    (c : ℕ) (cs : Text)
    → all is_ascii_alphabetic (c ∷ cs) ≡ true
    → soundex (c ∷ cs) ≡ some (american (c ∷ cs))
unfolding soundex american
soundex_letters c cs h =
    let (here, rest) = &&-true (is_ascii_alphabetic c) _ h in
    let b = to_ascii_lowercase c in
    let last = digit_lem b (lower_within c here) in
    rw h (
      ap (λ code. some (padded 4 code))
        (soundex_loop-digits (lowered cs) (to_ascii_uppercase b) [] (digit b) (omega arith))
      ∙ ap (λ ds. some (to_ascii_uppercase b ∷ ds))
          (padded-take (digits digit (digit b) (lowered cs)))
      ∙ ap (λ x. some (x ∷ take 3 (digits digit (digit b) (lowered cs) ++ codes "000")))
          (upper-lower c here)
      ∙ ap
          (λ ss. some (
            to_ascii_uppercase c ∷ take 3 (filter is_voiced (changes (digit b) ss) ++ codes "000")))
          (sounds_lem cs rest)
      ∙ ap
          (λ d. some (
            to_ascii_uppercase c
            ∷ take 3 (digits letter_digit d (map to_ascii_lowercase cs) ++ codes "000")))
          last)

-- A word of ASCII letters has the code that American Soundex gives it, a capital and three digits
-- from 0 to 6: the first letter, and the digits of the letters behind it, where h and w are passed
-- over, vowels and y separate, equal digits in a row count once, and the first letter's digit counts
-- for such a row. A word that is empty or has another character has no code.
pub soundex-american :
    (word : Text)
    → ((word ≢ [])
        → all is_ascii_alphabetic word ≡ true
        → (soundex word ≡ some (american word)) × Code (american word))
      × (((word ≡ []) ⊎ (all is_ascii_alphabetic word ≡ false)) → soundex word ≡ none)
soundex-american [] = (λ ne. absurd (ne refl), (soundex-shape []).1)
soundex-american (c ∷ cs) = (
  λ ne h.
      let e = soundex_letters c cs h in
      let (code, e', shape) = (soundex-shape (c ∷ cs)).0 ne h in
      (e, subst Code (some_inj (sym e' ∙ e)) shape),
  (soundex-shape (c ∷ cs)).1,
)
