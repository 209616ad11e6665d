-- ===== src/Float/Hundredths.antt =====
-- An instance of the float interface on which the examples run: numbers in hundredths.
use Prim.Native.Nat.{◌+◌, ◌*◌, ◌/◌}
use pg_fuzz.Base.{ℕ, ◌≡◌, true, false, ltb, leb, arith}
use pg_fuzz.Float.{Float}

pub ltb_trans : (a b c : ℕ) → ltb a b ≡ true → ltb b c ≡ true → ltb a c ≡ true
ltb_trans a b c h k = ground arith

pub ltb_irrefl : (a : ℕ) → ltb a a ≡ false
ltb_irrefl a = ground arith

abbrev pub hundredths : Float
hundredths = record {
  F = ℕ;
  of_nat = λ n. n * 100;
  mul = λ a b. a * b / 100;
  div = λ a b. a * 100 / b;
  round = λ a. (a + 50) / 100 * 100;
  to_nat = λ a. a / 100;
  lt = ltb;
  le = leb;
  lt_trans = ltb_trans;
  lt_irrefl = ltb_irrefl;
}
