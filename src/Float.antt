-- ===== src/Float.antt =====
-- `f32` and `f64` values by their IEEE 754 bit patterns. Comparison is the source's: false
-- whenever a side is NaN, and the two zeros are equal. Arithmetic on floats is a parameter.
use whispy.Base.{ℕ, ◌%◌, Bool, true, false, ◌&&◌, ◌||◌, not, ltb, leb}

-- A float type: its sign bit's weight, and the pattern of positive infinity.
pub record Format : Type 0 where
  pub sign : ℕ
  pub infinity : ℕ

abbrev pub f32 : Format
f32 = record { sign = 0x80000000; infinity = 0x7f800000 }

abbrev pub f64 : Format
f64 = record { sign = 0x8000000000000000; infinity = 0x7ff0000000000000 }

abbrev pub F32 : Type 0
F32 = ℕ

abbrev pub F64 : Type 0
F64 = ℕ

abbrev pub magnitude : Format → ℕ → ℕ
magnitude f x = x % f.sign

abbrev pub is_negative : Format → ℕ → Bool
is_negative f x = leb f.sign x

abbrev pub is_nan : Format → ℕ → Bool
is_nan f x = ltb f.infinity (magnitude f x)

-- The order of two patterns that are no NaN.
abbrev pub lt_signed : Format → Bool → Bool → ℕ → ℕ → Bool
lt_signed f false false a b = ltb a b
lt_signed f false true a b = false
lt_signed f true false a b = ltb 0 a || ltb 0 b
lt_signed f true true a b = ltb b a

-- `a < b`.
unfoldable pub float_lt : Format → ℕ → ℕ → Bool
float_lt f a b =
    not (is_nan f a)
    && not (is_nan f b)
    && lt_signed f (is_negative f a) (is_negative f b) (magnitude f a) (magnitude f b)

-- `a <= b`.
unfoldable pub float_le : Format → ℕ → ℕ → Bool
unfolding float_lt
float_le f a b = not (is_nan f a) && not (is_nan f b) && not (float_lt f b a)

-- The arithmetic of a float type, which the definitions take as an argument.
pub record Arith : Type 0 where
  pub of_nat : ℕ → ℕ
  pub add : ℕ → ℕ → ℕ
  pub mul : ℕ → ℕ → ℕ
  pub div : ℕ → ℕ → ℕ
  pub maximum : ℕ → ℕ → ℕ
