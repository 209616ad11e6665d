-- ===== src/Float/Signed.antt =====
-- An instance of the float interface with numbers below nothing: hundredths, of which 100000 is the
-- zero.
use Prim.Native.Nat.{◌+◌, ◌-◌, ◌*◌, ◌/◌}
use pg_fuzz.Base.{ℕ, ltb, leb, if◌then◌else◌}
use pg_fuzz.Float.{Float}
use pg_fuzz.Float.Hundredths.{ltb_trans, ltb_irrefl}

-- A value above zero, and one below, by a function of the distance.
abbrev pub by_distance : (ℕ → ℕ) → ℕ → ℕ
by_distance g a = if ltb a 100000 then 100000 - g (100000 - a) else 100000 + g (a - 100000)

-- Only products and quotients by values above zero are used.
abbrev pub signed : Float
signed = record {
  F = ℕ;
  of_nat = λ n. 100000 + n * 100;
  mul = λ a b. by_distance (λ d. d * (b - 100000) / 100) a;
  div = λ a b. by_distance (λ d. d * 100 / (b - 100000)) a;
  round = λ a. by_distance (λ d. (d + 50) / 100 * 100) a;
  to_nat = λ a. (a - 100000) / 100;
  lt = ltb;
  le = leb;
  lt_trans = ltb_trans;
  lt_irrefl = ltb_irrefl;
}
