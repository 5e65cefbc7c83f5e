-- ===== src/Vocab/Least.antt =====
-- The order of floats that the search for the least score in crates/daemon/src/vocab.rs relies on.
use whispy.Base.{true, false, ◌≡◌, arith, Bool-cases, inl, inr}
use whispy.Float.{F64, f64, float_lt}

-- No number is under itself.
pub float_lt_irrefl : (x : F64) → float_lt f64 x x ≡ false
unfolding float_lt
float_lt_irrefl x = ground arith

float_lt_trans :
    (x y z : F64) → float_lt f64 x y ≡ true → float_lt f64 y z ≡ true → float_lt f64 x z ≡ true
unfolding float_lt
float_lt_trans x y z h k = ground arith

-- What is not under a number is not under one that is less.
pub not_under_less :
    (x y z : F64) → float_lt f64 y z ≡ true → float_lt f64 x z ≡ false → float_lt f64 x y ≡ false
not_under_less x y z h k = elim (Bool-cases (float_lt f64 x y)) [
  | inl less ↦ let t = float_lt_trans x y z less h in cc
  | inr other ↦ other
]

-- What is not under a number is not under one that the number is not under. The number is no NaN,
-- being under some other.
pub not_under_more :
    (x y z bound : F64)
    → float_lt f64 y bound ≡ true
    → float_lt f64 x y ≡ false
    → float_lt f64 y z ≡ false
    → float_lt f64 x z ≡ false
unfolding float_lt
not_under_more x y z bound n h k = ground arith
