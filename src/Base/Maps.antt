-- ===== src/Base/Maps.antt =====
-- A Go map from strings as an association list. A missing key reads as the zero value, which is
-- `lookup_or`; a nil map is the empty list.
use mathlib.Core.Path.{◌≡◌, refl}
use mathlib.Core.Logic.{inl, inr}
use mathlib.Core.Bool.{false}
use mathlib.Core.List.{List, [], ◌∷◌}
use mathlib.Core.Option.{Option, none, some}
use native.Mathlib.Omega.{arith}
use pg_fuzz.Base.Tests.{if◌then◌else◌, or_else, is_some, Bool-cases}
use pg_fuzz.Base.Texts.{Text, eq, eq_iff}

abbrev pub Map {ℓ} : Type ℓ → Type ℓ
Map V = List (Text × V)

module _ {ℓ} {V : Type ℓ} where
  abbrev pub lookup : Text → Map V → Option V
  lookup k [] = none
  lookup k ((j, v) ∷ m) = if eq j k then some v else lookup k m

  abbrev pub put : Text → V → Map V → Map V
  put k v [] = (k, v) ∷ []
  put k v ((j, w) ∷ m) = if eq j k then (k, v) ∷ m else (j, w) ∷ put k v m

  abbrev pub delete : Text → Map V → Map V
  delete k [] = []
  delete k ((j, w) ∷ m) = if eq j k then delete k m else (j, w) ∷ delete k m

  abbrev pub lookup_or : V → Text → Map V → V
  lookup_or d k m = or_else (lookup k m) d

  pub lookup-put :
      (k j : Text) (v : V) (m : Map V)
      → lookup j (put k v m) ≡ (if eq k j then some v else lookup j m)
  lookup-put k j v [] = refl
  lookup-put k j v ((i, w) ∷ m) =
      ground (arith, eq_iff k j, eq_iff i k, eq_iff i j, lookup-put k j v m)

  pub lookup-delete :
      (k j : Text) (m : Map V) → lookup j (delete k m) ≡ (if eq k j then none else lookup j m)
  lookup-delete k j [] = ground arith
  lookup-delete k j ((i, w) ∷ m) =
      ground (arith, eq_iff k j, eq_iff i k, eq_iff i j, lookup-delete k j m)

  -- No key stands twice, as in every Go map.
  abbrev pub Unique : Map V → Type 0
  Unique [] = Unit
  Unique ((k, v) ∷ m) = (is_some (lookup k m) ≡ false) × Unique m

  pub Unique-put : (k : Text) (v : V) (m : Map V) → Unique m → Unique (put k v m)
  Unique-put k v [] u = (refl, tt)
  Unique-put k v ((j, w) ∷ m) u = elim (Bool-cases (eq j k)) [
    | inl e ↦ rw e (rw (← (eq_iff j k).0 e) u)
    | inr e ↦
        rw e
          (rw (lookup-put k j v m) (ground (arith, eq_iff k j, eq_iff j k)), Unique-put k v m u.1)
  ]

  pub Unique-delete : (k : Text) (m : Map V) → Unique m → Unique (delete k m)
  Unique-delete k [] u = tt
  Unique-delete k ((j, w) ∷ m) u = elim (Bool-cases (eq j k)) [
    | inl e ↦ rw e (Unique-delete k m u.1)
    | inr e ↦
        rw e
          (rw (lookup-delete k j m) (ground (arith, eq_iff k j, eq_iff j k)), Unique-delete k m u.1)
  ]
