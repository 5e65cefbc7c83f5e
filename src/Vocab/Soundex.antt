-- ===== src/Vocab/Soundex.antt =====
-- The codes of `soundex`, crates/daemon/src/vocab.rs.
use whispy.Base.{
  ℕ, zero, suc, ◌≤◌, true, false, ◌&&◌, not, none, some, [], ◌∷◌, ◌++◌, ◌≡◌, ◌≢◌, ◌⊎◌, inl, inr,
  refl, arith, all, length, length-append, Bool-cases, if◌then◌else◌, &&-true, ◌==◌,
}
use whispy.Text.{Text, within, is_ascii_alphabetic, to_ascii_lowercase, to_ascii_uppercase}
use whispy.Vocab.Tokens.{digit, soundex, soundex_loop, padded, lowered}

-- A letter, and three digits up to 6.
pub record Code (code : Text) : Type 0 where
  pub initial : ℕ
  pub digits : Text
  pub spelled : code ≡ initial ∷ digits
  pub upper : within b'A' b'Z' initial ≡ true
  pub numbers : all (within b'0' b'6') digits ≡ true
  pub three : length digits ≡ 3

digit-within : (c : ℕ) → within b'0' b'6' (digit c) ≡ true
unfolding digit
digit-within c = ground arith

all-snoc :
    (ds : Text) (d : ℕ)
    → all (within b'0' b'6') ds ≡ true
    → within b'0' b'6' d ≡ true
    → all (within b'0' b'6') (ds ++ (d ∷ [])) ≡ true
all-snoc [] d h w = ground arith
all-snoc (x ∷ ds) d h w = ground (arith, all-snoc ds d)

-- The loop keeps the first code, adds digits behind it, and never more than three.
soundex_loop_digits :
    (bs : Text) (x : ℕ) (ds : Text) (last : ℕ)
    → all (within b'0' b'6') ds ≡ true
    → length ds ≤ 3
    → (es : Text) × (soundex_loop bs (x ∷ ds) last ≡ x ∷ es)
      × (all (within b'0' b'6') es ≡ true)
      × (length es ≤ 3)
unfolding soundex_loop
soundex_loop_digits [] x ds last h le = (ds, refl, h, le)
soundex_loop_digits (b ∷ bs) x ds last h le =
    let d = digit b in
    let last' = if not (b == b'h') && not (b == b'w') then d else last in
    elim (Bool-cases (length (x ∷ ds) == 4)) [
      | inl full ↦ rw full (ds, refl, h, le)
      | inr room ↦ elim (Bool-cases (not (d == b'0') && not (d == last))) [
        | inl more ↦
            rw (room, more)
              (soundex_loop_digits bs x (ds ++ (d ∷ [])) last' (all-snoc ds d h (digit-within b))
                (ground (arith, length-append ds (d ∷ []))))
        | inr same ↦ rw (room, same) (soundex_loop_digits bs x ds last' h le)
      ]
    ]

-- Zeros fill a code up.
padded_digits :
    (n : ℕ) (ds : Text)
    → all (within b'0' b'6') ds ≡ true
    → length ds ≤ n
    → (all (within b'0' b'6') (padded n ds) ≡ true) × (length (padded n ds) ≡ n)
padded_digits zero [] h le = (refl, refl)
padded_digits zero (d ∷ ds) h le = absurd (omega arith)
padded_digits (suc n) [] h le =
    let (a, b) = padded_digits n [] refl (omega arith) in (a, omega (arith, b))
padded_digits (suc n) (d ∷ ds) h le =
    let (here, later) = &&-true (within b'0' b'6' d) _ h in
    let (a, b) = padded_digits n ds later (omega arith) in
    (ground (arith, here, a), omega (arith, b))

upper_initial :
    (c : ℕ)
    → is_ascii_alphabetic c ≡ true
    → within b'A' b'Z' (to_ascii_uppercase (to_ascii_lowercase c)) ≡ true
upper_initial c h = ground arith

-- A word of ASCII letters has a code, of the Soundex form: a capital and three digits from 0 to 6.
-- Nothing else has one.
pub soundex-shape :
    (word : Text)
    → ((word ≢ [])
        → all is_ascii_alphabetic word ≡ true
        → (code : Text) × (soundex word ≡ some code) × Code code)
      × (((word ≡ []) ⊎ (all is_ascii_alphabetic word ≡ false)) → soundex word ≡ none)
unfolding soundex
soundex-shape [] = (λ ne. absurd (ne refl), λ h. refl)
soundex-shape (c ∷ cs) = (
  λ ne h.
      let b = to_ascii_lowercase c in
      let initial = to_ascii_uppercase b in
      let (ds, e, numbers, few) =
        soundex_loop_digits (lowered cs) initial [] (digit b) refl (omega arith) in
      let (padded_numbers, three) = padded_digits 3 ds numbers few in
      (
        initial ∷ padded 3 ds,
        rw (h, e) refl,
        record {
          initial = initial;
          digits = padded 3 ds;
          spelled = refl;
          upper = upper_initial c (&&-true _ _ h).0;
          numbers = padded_numbers;
          three = three;
        },
      ),
  λ h. elim h [ inl e ↦ cc | inr e ↦ rw e refl ],
)
