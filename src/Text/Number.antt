-- ===== src/Text/Number.antt =====
-- `u64::from_str`, and its round trip with `format!`.
use whispy.Base.{
  ℕ, zero, suc, ◌+◌, ◌-◌, ◌*◌, ◌/◌, ◌%◌, ◌<◌, Bool, true, false, ◌&&◌, Option, none, some, [], ◌∷◌,
  ◌≡◌, refl, sym, ap, ◌∙◌, arith, ltb, leb, ◌==◌, if◌then◌else◌, Bool-cases, inl, inr,
}
use whispy.Text.Decimal.{decimal, digits}
use whispy.Text.{Text}

abbrev pub u64_mod : ℕ
u64_mod = 18446744073709551616

abbrev pub is_digit : ℕ → Bool
is_digit c = leb b'0' c && leb c b'9'

-- The digits behind a number, each step checked for overflow.
unfoldable pub number : ℕ → Text → Option ℕ
number v [] = some v
number v (c ∷ cs) =
    let rest = number (v * 10 + (c - b'0')) cs in
    if is_digit c && ltb (v * 10 + (c - b'0')) u64_mod then rest else none

abbrev unsigned : Text → Option ℕ
unsigned [] = none
unsigned (c ∷ cs) = number 0 (c ∷ cs)

-- `parse::<u64>()`.
unfoldable pub parse_u64 : Text → Option ℕ
unfolding number
parse_u64 [] = none
parse_u64 (c ∷ cs) = if c == b'+' then unsigned cs else number 0 (c ∷ cs)

shifted : (d : ℕ) → b'0' + d - b'0' ≡ d
shifted d = omega arith

number_step :
    (v d : ℕ) (cs : Text)
    → d < 10
    → v * 10 + d < u64_mod
    → number v ((b'0' + d) ∷ cs) ≡ number (v * 10 + d) cs
unfolding number
number_step v d cs h k = rw (shifted d) (ground arith)

digits_small :
    (fuel n : ℕ) (acc : Text) → ltb n 10 ≡ true → digits (suc fuel) n acc ≡ (b'0' + n) ∷ acc
unfolding digits
digits_small fuel n acc h = rw (h, digits) refl

digits_large :
    (fuel n : ℕ) (acc : Text)
    → ltb n 10 ≡ false
    → digits (suc fuel) n acc ≡ digits fuel (n / 10) ((b'0' + n % 10) ∷ acc)
unfolding digits
digits_large fuel n acc h = rw (h, digits) refl

digits_number :
    (fuel n : ℕ) (acc : Text) → n < fuel → n < u64_mod → number 0 (digits fuel n acc) ≡ number n acc
digits_number zero n acc h k = absurd (omega arith)
digits_number (suc fuel) n acc h k = elim (Bool-cases (ltb n 10)) [
  | inl small ↦ rw (digits_small fuel n acc small) (
      number_step 0 n acc (ground (arith, small)) (omega arith)
      ∙ ap (λ v. number v acc) (omega arith))
  | inr large ↦ rw (digits_large fuel n acc large) (
      digits_number fuel (n / 10) ((b'0' + n % 10) ∷ acc) (ground (arith, large)) (omega arith)
      ∙ number_step (n / 10) (n % 10) acc (omega arith) (omega arith)
      ∙ ap (λ v. number v acc) (omega arith))
]

-- Some digit comes first.
digits_first :
    (fuel n : ℕ) (acc : Text)
    → n < fuel
    → (c : ℕ) × (cs : Text) × (digits fuel n acc ≡ c ∷ cs) × ((c == b'+') ≡ false)
digits_first zero n acc h = absurd (omega arith)
digits_first (suc fuel) n acc h = elim (Bool-cases (ltb n 10)) [
  | inl small ↦ (b'0' + n, acc, digits_small fuel n acc small, ground arith)
  | inr large ↦
      let (c, cs, e, plain) =
        digits_first fuel (n / 10) ((b'0' + n % 10) ∷ acc) (ground (arith, large)) in
      (c, cs, digits_large fuel n acc large ∙ e, plain)
]

-- A number printed is read back.
pub parse_u64-decimal : (n : ℕ) → n < u64_mod → parse_u64 (decimal n) ≡ some n
unfolding parse_u64 decimal number
parse_u64-decimal n h =
    let (c, cs, e, plain) = digits_first (suc n) n [] (omega arith) in
    let read = digits_number (suc n) n [] (omega arith) h in
    rw e (rw plain (sym (ap (number 0) e) ∙ read))
