-- ===== src/Float.antt =====
-- `f64` and the methods of it that the program calls. The type is opaque: no law about rounding
-- or NaN is built in, and a theorem that needs one takes it as a hypothesis.
use quantoxide.Prelude.{Bool}
use quantoxide.Prelude.Int.{ℤ}

pub record Float : Type 1 where
  pub F64 : Type 0
  pub f64_le : F64 → F64 → Bool  -- `x <= y`, false on NaN
  pub f64_lt : F64 → F64 → Bool  -- `x < y`, false on NaN
  pub f64_zero : F64
  pub f64_one : F64
  pub f64_hundred : F64
  pub f64_minimum : F64
  pub f64_maximum : F64
  pub f64_max : F64 → F64 → F64
  pub f64_min : F64 → F64 → F64
  pub f64_add : F64 → F64 → F64
  pub f64_sub : F64 → F64 → F64
  pub f64_mul : F64 → F64 → F64
  pub f64_div : F64 → F64 → F64
  pub f64_neg : F64 → F64
  pub f64_floor : F64 → F64
  pub f64_round : F64 → F64
  pub f64_as_i64 : F64 → ℤ  -- `as i64`, which saturates
