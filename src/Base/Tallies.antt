-- ===== src/Base/Tallies.antt =====
-- Go's `m[k]++` on a map of counts, where a missing key counts as nothing.
use Prim.Native.Nat.{ℕ, suc, ◌+◌}
use mathlib.Core.Path.{◌≡◌, refl}
use mathlib.Core.Logic.{inl, inr}
use mathlib.Core.List.{List, [], ◌∷◌}
use native.Mathlib.Omega.{arith}
use pg_fuzz.Base.Tests.{if◌then◌else◌, Bool-cases}
use pg_fuzz.Base.Texts.{Text, eq, eq_iff}
use pg_fuzz.Base.Maps.{Map, lookup_or, put, lookup-put}

unfoldable pub bump : Text → Map ℕ → Map ℕ
bump k m = put k (suc (lookup_or 0 k m)) m

-- Each key of the list, once for every time that it stands there.
unfoldable pub tally : List Text → Map ℕ → Map ℕ
tally [] m = m
tally (k ∷ ks) m = tally ks (bump k m)

abbrev pub count : Text → List Text → ℕ
count k [] = 0
count k (j ∷ js) = if eq j k then suc (count k js) else count k js

abbrev pub total : Map ℕ → ℕ
total [] = 0
total ((k, n) ∷ m) = n + total m

abbrev pub size : List Text → ℕ
size [] = 0
size (k ∷ ks) = suc (size ks)

pub lookup_or-bump :
    (k j : Text) (m : Map ℕ)
    → lookup_or 0 j (bump k m) ≡ (if eq k j then suc (lookup_or 0 j m) else lookup_or 0 j m)
unfolding bump
lookup_or-bump k j m = elim (Bool-cases (eq k j)) [
  | inl e ↦ rw (lookup-put k j (suc (lookup_or 0 k m)) m, e) (rw ((eq_iff k j).0 e) refl)
  | inr e ↦ rw (lookup-put k j (suc (lookup_or 0 k m)) m, e) refl
]

total-put : (k : Text) (v : ℕ) (m : Map ℕ) → total (put k v m) + lookup_or 0 k m ≡ total m + v
total-put k v [] = omega arith
total-put k v ((j, n) ∷ m) = elim (Bool-cases (eq j k)) [
  | inl e ↦ rw e (omega arith)
  | inr e ↦ rw e (omega (arith, total-put k v m))
]

pub total-bump : (k : Text) (m : Map ℕ) → total (bump k m) ≡ suc (total m)
unfolding bump
total-bump k m = omega (arith, total-put k (suc (lookup_or 0 k m)) m)

pub lookup_or-tally :
    (j : Text) (ks : List Text) (m : Map ℕ)
    → lookup_or 0 j (tally ks m) ≡ lookup_or 0 j m + count j ks
unfolding tally
lookup_or-tally j [] m = omega arith
lookup_or-tally j (k ∷ ks) m = elim (Bool-cases (eq k j)) [
  | inl e ↦ rw e (ground (arith, e, lookup_or-tally j ks (bump k m), lookup_or-bump k j m))
  | inr e ↦ rw e (ground (arith, e, lookup_or-tally j ks (bump k m), lookup_or-bump k j m))
]

pub total-tally : (ks : List Text) (m : Map ℕ) → total (tally ks m) ≡ total m + size ks
unfolding tally
total-tally [] m = omega arith
total-tally (k ∷ ks) m = omega (arith, total-tally ks (bump k m), total-bump k m)
