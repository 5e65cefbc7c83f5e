-- ===== src/Text/Decimal.antt =====
-- A number in decimal, as `format!` writes it. One unit of fuel for each digit: a number is longer
-- than its digits.
use whispy.Base.{ℕ, zero, suc, ◌+◌, ◌/◌, ◌%◌, true, false, [], ◌∷◌, ltb}
use whispy.Text.{Text}

unfoldable pub digits : ℕ → ℕ → Text → Text
digits zero n acc = acc
digits (suc fuel) n acc = elim (ltb n 10) [
  | true ↦ (b'0' + n) ∷ acc
  | false ↦ digits fuel (n / 10) ((b'0' + n % 10) ∷ acc)
]

unfoldable pub decimal : ℕ → Text
unfolding digits
decimal n = digits (suc n) n []
