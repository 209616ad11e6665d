-- ===== src/Float.antt =====
-- Go's float64, which antt has no type for: its values and the operations that the program uses are
-- a parameter. The laws are those that IEEE 754 comparison has, NaN included.
pub mod Hundredths
pub mod Signed
use mathlib.Core.Path.{◌≡◌}
use mathlib.Core.Bool.{Bool, true, false}
use Prim.Native.Nat.{ℕ}

pub record Float : Type 1 where
  pub F : Type 0
  -- `float64(n)` of an int.
  pub of_nat : ℕ → F
  pub mul : F → F → F
  pub div : F → F → F
  -- `math.Round`.
  pub round : F → F
  -- `int(x)`, of the values that are not negative.
  pub to_nat : F → ℕ
  -- `a < b` and `a <= b`. Both are false at a NaN.
  pub lt : F → F → Bool
  pub le : F → F → Bool
  pub lt_trans : (a b c : F) → lt a b ≡ true → lt b c ≡ true → lt a c ≡ true
  pub lt_irrefl : (a : F) → lt a a ≡ false
