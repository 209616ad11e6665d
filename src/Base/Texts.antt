-- ===== src/Base/Texts.antt =====
-- Texts as lists of bytes, compared byte by byte as Go compares strings.
use Prim.Native.Char.{code}
use Prim.Native.String.{String}
use Prim.Native.Nat.{ℕ}
use mathlib.Core.Path.{◌≡◌, refl}
use mathlib.Core.Logic.{◌↔◌}
use mathlib.Core.Bool.{Bool, true, false, ◌&&◌}
use mathlib.Core.List.{List, [], ◌∷◌}
use native.Mathlib.Omega.{arith}
use pg_fuzz.Base.Tests.{◌==◌, ltb}

abbrev pub Text : Type 0
Text = List ℕ

-- The bytes of a literal; every literal below is ASCII.
abbrev pub codes : String → Text
codes String.[] = []
codes (String.◌∷◌ c s) = code c ∷ codes s

-- `a == b` on strings.
abbrev pub eq : Text → Text → Bool
eq [] [] = true
eq [] (y ∷ ys) = false
eq (x ∷ xs) [] = false
eq (x ∷ xs) (y ∷ ys) = x == y && eq xs ys

-- `a < b` on strings.
abbrev pub less : Text → Text → Bool
less [] [] = false
less [] (y ∷ ys) = true
less (x ∷ xs) [] = false
less (x ∷ xs) (y ∷ ys) = elim (ltb x y) [
  | true ↦ true
  | false ↦ elim (ltb y x) [ true ↦ false | false ↦ less xs ys ]
]

abbrev pub is_empty : Text → Bool
is_empty [] = true
is_empty (x ∷ xs) = false

pub eq_iff : (a b : Text) → (eq a b ≡ true) ↔ (a ≡ b)
eq_iff [] [] = ground arith
eq_iff [] (y ∷ ys) = ground arith
eq_iff (x ∷ xs) [] = ground arith
eq_iff (x ∷ xs) (y ∷ ys) = ground (arith, eq_iff xs ys)

pub eq_refl : (a : Text) → eq a a ≡ true
eq_refl a = (eq_iff a a).1 refl

pub less_irrefl : (a : Text) → less a a ≡ false
less_irrefl [] = refl
less_irrefl (x ∷ xs) = ground (arith, less_irrefl xs)

pub less_trans : (a b c : Text) → less a b ≡ true → less b c ≡ true → less a c ≡ true
less_trans [] [] c h k = ground arith
less_trans [] (y ∷ ys) [] h k = ground arith
less_trans [] (y ∷ ys) (z ∷ zs) h k = refl
less_trans (x ∷ xs) [] c h k = ground arith
less_trans (x ∷ xs) (y ∷ ys) [] h k = ground arith
less_trans (x ∷ xs) (y ∷ ys) (z ∷ zs) h k = ground (arith, less_trans xs ys zs)

pub less_total : (a b : Text) → less a b ≡ false → less b a ≡ false → a ≡ b
less_total [] [] h k = refl
less_total [] (y ∷ ys) h k = ground arith
less_total (x ∷ xs) [] h k = ground arith
less_total (x ∷ xs) (y ∷ ys) h k = ground (arith, less_total xs ys)
