-- ===== src/Base/Keyed.antt =====
-- The entries of a map: a property of all of them, and what its keys look up.
use Prim.Native.Nat.{ℕ, suc, ◌+◌}
use mathlib.Core.Path.{◌≡◌, refl, subst}
use mathlib.Core.Logic.{inl, inr}
use mathlib.Core.Bool.{Bool, false}
use mathlib.Core.List.{[], ◌∷◌}
use mathlib.Core.Option.{some}
use native.Mathlib.Omega.{arith}
use pg_fuzz.Base.Tests.{if◌then◌else◌, Bool-cases, is_some}
use pg_fuzz.Base.Texts.{Text, eq, eq_iff, eq_refl}
use pg_fuzz.Base.Maps.{Map, lookup, lookup_or, put, Unique}
use pg_fuzz.Base.Tallies.{bump}

module _ {V : Type 0} where
  -- Every value has the property.
  abbrev pub Values : (V → Type 0) → Map V → Type 0
  Values P [] = Unit
  Values P ((k, v) ∷ m) = P v × Values P m

  pub Values-put :
      (P : V → Type 0) (k : Text) (v : V) (m : Map V) → P v → Values P m → Values P (put k v m)
  Values-put P k v [] p a = (p, tt)
  Values-put P k v ((j, w) ∷ m) p (q, a) = elim (Bool-cases (eq j k)) [
    | inl e ↦ rw e (p, a)
    | inr e ↦ rw e (q, Values-put P k v m p a)
  ]

  pub Values-lookup_or :
      (P : V → Type 0) (d : V) (k : Text) (m : Map V) → P d → Values P m → P (lookup_or d k m)
  Values-lookup_or P d k [] p a = p
  Values-lookup_or P d k ((j, w) ∷ m) p (q, a) = elim (Bool-cases (eq j k)) [
    | inl e ↦ rw e q
    | inr e ↦ rw e (Values-lookup_or P d k m p a)
  ]

  -- Every entry has the property.
  abbrev pub Entries : (Text → V → Type 0) → Map V → Type 0
  Entries P [] = Unit
  Entries P ((k, v) ∷ m) = P k v × Entries P m

  pub Entries-map :
      (P Q : Text → V → Type 0) (m : Map V)
      → ((k : Text) → (v : V) → P k v → Q k v)
      → Entries P m
      → Entries Q m
  Entries-map P Q [] f a = tt
  Entries-map P Q ((k, v) ∷ m) f (p, a) = (f k v p, Entries-map P Q m f a)

  later :
      (j k : Text) (w v : V) (m : Map V)
      → is_some (lookup j m) ≡ false
      → lookup k m ≡ some v
      → lookup k ((j, w) ∷ m) ≡ some v
  later j k w v m u h = elim (Bool-cases (eq j k)) [
    | inl e ↦
        let missing : is_some (lookup k m) ≡ false =
          subst (λ (t : Text). is_some (lookup t m) ≡ false) ((eq_iff j k).0 e) u in
        ground (arith, missing, h)
    | inr e ↦ rw e h
  ]

  -- Where no key stands twice, each key looks up its own value.
  pub Entries-Unique : (m : Map V) → Unique m → Entries (λ k v. lookup k m ≡ some v) m
  Entries-Unique [] u = tt
  Entries-Unique ((j, w) ∷ m) (u, us) = (
    rw (eq_refl j) refl,
    Entries-map (λ k v. lookup k m ≡ some v) (λ k v. lookup k ((j, w) ∷ m) ≡ some v) m
        (λ k v h. later j k w v m u h) (Entries-Unique m us),
  )

-- The sum of the counts whose key is chosen.
abbrev pub total_by : (Text → Bool) → Map ℕ → ℕ
total_by p [] = 0
total_by p ((k, n) ∷ m) = let rest = total_by p m in if p k then n + rest else rest

total_by-put :
    (p : Text → Bool) (k : Text) (v : ℕ) (m : Map ℕ)
    → total_by p (put k v m) + (if p k then lookup_or 0 k m else 0)
      ≡ total_by p m + (if p k then v else 0)
total_by-put p k v [] = ground arith
total_by-put p k v ((j, n) ∷ m) = elim (Bool-cases (eq j k)) [
  | inl e ↦ rw e (rw ((eq_iff j k).0 e) (ground arith))
  | inr e ↦ rw e (ground (arith, total_by-put p k v m))
]

pub total_by-bump :
    (p : Text → Bool) (k : Text) (m : Map ℕ)
    → total_by p (bump k m) ≡ (if p k then suc (total_by p m) else total_by p m)
unfolding bump
total_by-bump p k m = ground (arith, total_by-put p k (suc (lookup_or 0 k m)) m)
