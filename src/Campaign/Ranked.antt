-- ===== src/Campaign/Ranked.antt =====
-- The order of the targets, and the counts that it goes by.
use pg_fuzz.Base.{
  ℕ, ◌≡◌, refl, ◌∙◌, inl, inr, Bool, true, false, List, [], ◌∷◌, Perm, Option, none, some, Text,
  Map, lookup, lookup_or, ◌<◌, ◌⊎◌, lookup-put, put, eq, eq_iff, less, less_irrefl, less_trans,
  less_total, insert_by, sort_by, sort_by-perm, if◌then◌else◌, is_some, All, Unique, Bool-cases,
  Option-cases, arith,
}
use pg_fuzz.Campaign.Order.{
  ranks_before, by_productivity, SeriesNewUnits, overwrite, latest_from, latest_new_units,
}

-- No element stands behind one that it ranks before.
abbrev Ranked {ℓ} : {A : Type ℓ} → (A → A → Bool) → List A → Type 0
Ranked lt [] = Unit
Ranked lt (x ∷ xs) = All (λ y. lt y x ≡ false) xs × Ranked lt xs

module _ {ℓ} {A : Type ℓ} (lt : A → A → Bool) (asym : (a b : A) → lt a b ≡ true → lt b a ≡ false)
    (cotrans : (a b c : A) → lt a b ≡ false → lt b c ≡ false → lt a c ≡ false) where
  All-cotrans :
      (x y : A) (zs : List A)
      → lt y x ≡ false
      → All (λ z. lt z y ≡ false) zs
      → All (λ z. lt z x ≡ false) zs
  All-cotrans x y [] h a = tt
  All-cotrans x y (z ∷ zs) h (k, a) = (cotrans z y x k h, All-cotrans x y zs h a)

  All-insert_by :
      (x y : A) (zs : List A)
      → lt x y ≡ false
      → All (λ z. lt z y ≡ false) zs
      → All (λ z. lt z y ≡ false) (insert_by lt x zs)
  All-insert_by x y [] h a = (h, tt)
  All-insert_by x y (z ∷ zs) h (k, a) = elim (Bool-cases (lt z x)) [
    | inl e ↦ rw e (k, All-insert_by x y zs h a)
    | inr e ↦ rw e (h, (k, a))
  ]

  insert_by-Ranked : (x : A) (ys : List A) → Ranked lt ys → Ranked lt (insert_by lt x ys)
  insert_by-Ranked x [] r = (tt, tt)
  insert_by-Ranked x (y ∷ ys) (a, r) = elim (Bool-cases (lt y x)) [
    | inl e ↦ rw e (All-insert_by x y ys (asym y x e) a, insert_by-Ranked x ys r)
    | inr e ↦ rw e ((e, All-cotrans x y ys e a), (a, r))
  ]

  sort_by-Ranked : (xs : List A) → Ranked lt (sort_by lt xs)
  sort_by-Ranked [] = tt
  sort_by-Ranked (x ∷ xs) = insert_by-Ranked x (sort_by lt xs) (sort_by-Ranked xs)

less_asym : (a b : Text) → less a b ≡ true → less b a ≡ false
less_asym a b h = elim (Bool-cases (less b a)) [
  | inl e ↦ ground (arith, less_trans a b a h e, less_irrefl a)
  | inr e ↦ e
]

less_cotrans : (a b c : Text) → less a b ≡ false → less b c ≡ false → less a c ≡ false
less_cotrans a b c h k = elim (Bool-cases (less a c)) [
  | inl e ↦ elim (Bool-cases (less b a)) [
    | inl l ↦ ground (arith, less_trans b a c l e, k)
    | inr l ↦ rw (less_total a b h l) k
  ]
  | inr e ↦ e
]

ranks_before_asym :
    (latest : Map ℕ) (a b : Text) → ranks_before latest a b ≡ true → ranks_before latest b a ≡ false
ranks_before_asym latest a b h = ground (arith, h, less_asym a b)

ranks_before_cotrans :
    (latest : Map ℕ) (a b c : Text)
    → ranks_before latest a b ≡ false
    → ranks_before latest b c ≡ false
    → ranks_before latest a c ≡ false
ranks_before_cotrans latest a b c h k = ground (arith, h, k, less_cotrans a b c)

-- The relation holds between each element and every one behind it.
abbrev pub Ordered {ℓ} : {A : Type ℓ} → (A → A → Type 0) → List A → Type 0
Ordered R [] = Unit
Ordered R (x ∷ xs) = All (λ y. R x y) xs × Ordered R xs

-- The first found more units last, or as many and does not come later in the alphabet.
abbrev pub FoundMore : Map ℕ → Text → Text → Type 0
FoundMore latest s t =
    (lookup_or 0 t latest < lookup_or 0 s latest)
    ⊎ ((lookup_or 0 s latest ≡ lookup_or 0 t latest) × (less t s ≡ false))

ranks_before-FoundMore :
    (latest : Map ℕ) (s t : Text) → ranks_before latest t s ≡ false → FoundMore latest s t
ranks_before-FoundMore latest s t h = ground (arith, h)

All-FoundMore :
    (latest : Map ℕ) (s : Text) (ts : List Text)
    → All (λ t. ranks_before latest t s ≡ false) ts
    → All (λ t. FoundMore latest s t) ts
All-FoundMore latest s [] a = tt
All-FoundMore latest s (t ∷ ts) (h, a) =
    (ranks_before-FoundMore latest s t h, All-FoundMore latest s ts a)

Ranked-Ordered :
    (latest : Map ℕ) (ts : List Text)
    → Ranked (ranks_before latest) ts
    → Ordered (FoundMore latest) ts
Ranked-Ordered latest [] r = tt
Ranked-Ordered latest (t ∷ ts) (a, r) = (All-FoundMore latest t ts a, Ranked-Ordered latest ts r)

-- The targets are the same, as often, and of any two the one in front found more new units last, or as
-- many and does not come later by its name; a target with no count found none.
pub by_productivity-Ordered :
    (targets : List Text) (latest : Map ℕ)
    → Perm (by_productivity targets latest) targets
      × Ordered (FoundMore latest) (by_productivity targets latest)
unfolding by_productivity
by_productivity-Ordered targets latest = (
  sort_by-perm (ranks_before latest) targets,
  Ranked-Ordered latest (sort_by (ranks_before latest) targets) (
      sort_by-Ranked (ranks_before latest) (ranks_before_asym latest) (ranks_before_cotrans latest)
        targets),
)

abbrev or_later : Option ℕ → Option ℕ → Option ℕ
or_later (some v) old = some v
or_later none old = old

lookup-overwrite :
    (t : Text) (m out : Map ℕ)
    → Unique m
    → lookup t (overwrite m out) ≡ or_later (lookup t m) (lookup t out)
unfolding overwrite
lookup-overwrite t [] out u = refl
lookup-overwrite t ((k, v) ∷ m) out u =
    lookup-overwrite t m (put k v out) u.1 ∙ elim (Bool-cases (eq k t)) [
      | inl e ↦
          let absent : is_some (lookup t m) ≡ false = rw (← (eq_iff k t).0 e) u.0 in
          elim (Option-cases (lookup t m)) [
            | inl q ↦ rw (q, lookup-put k t v out, e) refl
            | inr (w, q) ↦ absurd (cc (rw q at absent))
          ]
      | inr e ↦ rw (lookup-put k t v out, e) refl
    ]

-- What the last row of the workspace that names the target says.
abbrev pub last_of : Text → Text → List SeriesNewUnits → Option ℕ
last_of t ws [] = none
last_of t ws (r ∷ rs) =
    or_later (last_of t ws rs) (if eq r.ws ws then lookup t r.new_units else none)

or_later_assoc : (a b c : Option ℕ) → or_later a (or_later b c) ≡ or_later (or_later a b) c
or_later_assoc (some v) b c = refl
or_later_assoc none b c = refl

or_later-none : (a : Option ℕ) → or_later a none ≡ a
or_later-none (some v) = refl
or_later-none none = refl

lookup-latest_from :
    (t ws : Text) (rows : List SeriesNewUnits) (out : Map ℕ)
    → All (λ r. Unique r.new_units) rows
    → lookup t (latest_from rows ws out) ≡ or_later (last_of t ws rows) (lookup t out)
unfolding latest_from
lookup-latest_from t ws [] out u = refl
lookup-latest_from t ws (r ∷ rs) out (u, us) = elim (Bool-cases (eq r.ws ws)) [
  | inl e ↦ rw e (
      lookup-latest_from t ws rs (overwrite r.new_units out) us
      ∙ rw (lookup-overwrite t r.new_units out u)
          (or_later_assoc (last_of t ws rs) (lookup t r.new_units) (lookup t out)))
  | inr e ↦ rw e (lookup-latest_from t ws rs out us ∙ rw (or_later-none (last_of t ws rs)) refl)
]

-- A target's count is that of the last row of the workspace that names it, if no row names one twice.
pub latest_new_units-last_of :
    (t ws : Text) (rows : List SeriesNewUnits)
    → All (λ r. Unique r.new_units) rows
    → lookup t (latest_new_units rows ws) ≡ last_of t ws rows
unfolding latest_new_units
latest_new_units-last_of t ws rows u =
    lookup-latest_from t ws rows [] u ∙ or_later-none (last_of t ws rows)
