-- ===== src/Base/Decimals.antt =====
-- The decimal form of a number is read back.
use Prim.Native.Nat.{ℕ, zero, suc, ◌+◌, ◌*◌, ◌/◌, ◌%◌, ◌^◌, ◌≤◌, ◌<◌}
use mathlib.Core.Path.{◌≡◌, refl, ap, ◌∙◌}
use mathlib.Core.Logic.{inl, inr}
use mathlib.Core.Bool.{true}
use mathlib.Core.List.{[], ◌∷◌}
use mathlib.Core.Option.{some}
use native.Mathlib.Omega.{arith}
use pg_fuzz.Base.Tests.{◌==◌, leb, leb_iff, Bool-cases}
use pg_fuzz.Base.Texts.{Text}
use pg_fuzz.Base.Fields.{digits_from, in_int, atoi, decimal_from, decimal}

digits_from-digit :
    (acc d : ℕ) (rest : Text)
    → d < 10
    → digits_from acc ((b'0' + d) ∷ rest) ≡ digits_from (acc * 10 + d) rest
digits_from-digit acc d rest h =
    let low : leb b'0' (b'0' + d) ≡ true = (leb_iff b'0' (b'0' + d)).1 (omega arith) in
    let high : leb (b'0' + d) b'9' ≡ true = (leb_iff (b'0' + d) b'9').1 (omega arith) in
    rw (low, high) (ap (λ (m : ℕ). digits_from m rest) (omega arith))

digits_from-decimal_from :
    (fuel n : ℕ) (rest : Text)
    → n < fuel
    → digits_from 0 (decimal_from fuel n rest) ≡ digits_from n rest
digits_from-decimal_from zero n rest h = absurd (omega arith)
digits_from-decimal_from (suc fuel) n rest h = elim (Bool-cases (n / 10 == 0)) [
  | inl e ↦ rw e (
      digits_from-digit 0 (n % 10) rest (omega arith)
      ∙ ap (λ (m : ℕ). digits_from m rest) (ground (arith, e)))
  | inr e ↦ rw e (
      digits_from-decimal_from fuel (n / 10) ((b'0' + n % 10) ∷ rest) (ground (arith, e))
      ∙ digits_from-digit (n / 10) (n % 10) rest (omega arith)
      ∙ ap (λ (m : ℕ). digits_from m rest) (omega arith))
]

-- A number begins with a digit.
abbrev pub StartsWithDigit : Text → Type 0
StartsWithDigit [] = ⊥
StartsWithDigit (c ∷ s) = (b'0' ≤ c) × (c ≤ b'9')

StartsWithDigit-decimal_from :
    (fuel n : ℕ) (rest : Text) → n < fuel → StartsWithDigit (decimal_from fuel n rest)
StartsWithDigit-decimal_from zero n rest h = absurd (omega arith)
StartsWithDigit-decimal_from (suc fuel) n rest h = elim (Bool-cases (n / 10 == 0)) [
  | inl e ↦ rw e (omega arith, omega arith)
  | inr e ↦
      rw e (StartsWithDigit-decimal_from fuel (n / 10) ((b'0' + n % 10) ∷ rest) (ground (arith, e)))
]

pub StartsWithDigit-decimal : (n : ℕ) → StartsWithDigit (decimal n)
unfolding decimal
StartsWithDigit-decimal n = StartsWithDigit-decimal_from (suc n) n [] (omega arith)

atoi-StartsWithDigit : (s : Text) → StartsWithDigit s → atoi s ≡ in_int (digits_from 0 s)
unfolding atoi
atoi-StartsWithDigit [] h = elim h [ ]
atoi-StartsWithDigit (c ∷ []) h = refl
atoi-StartsWithDigit (c ∷ d ∷ s) h = elim (Bool-cases (c == b'+')) [
  | inl e ↦ absurd (ground (arith, h, e))
  | inr e ↦ rw e refl
]

pub atoi-decimal : (n : ℕ) → n < 2 ^ 63 → atoi (decimal n) ≡ some n
unfolding decimal
atoi-decimal n h =
    atoi-StartsWithDigit (decimal n) (StartsWithDigit-decimal n)
    ∙ ap in_int (digits_from-decimal_from (suc n) n [] (omega arith))
    ∙ ground (arith, h)
