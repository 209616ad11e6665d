-- ===== src/Ratchet/Tripped.antt =====
-- Where a chart trips.
use pg_fuzz.Base.{
  ℕ, suc, ◌+◌, List, [], ◌∷◌, none, some, ◌≡◌, refl, ap, ◌∙◌, sym, inl, inr, arith, Bool-cases,
  zero, ◌<◌, ◌↔◌, true, false, length, take,
}
use pg_fuzz.Float.{Float}
use pg_fuzz.Ratchet.Cusum.{Chart, CusumOptions, next_level, chart_rounds, tripped}

module _ (f : Float) (c : Chart f) (o : CusumOptions f c) (med sd : f.F) where
  -- The level after some rounds, one after the other: it falls by what a round is above the median, in
  -- deviations and not below the clip, and by `k`, and does not go below nothing.
  abbrev pub level_after : f.F → List f.F → f.F
  level_after level [] = level
  level_after level (x ∷ xs) =
      level_after
        (c.larger_of (f.of_nat 0)
          (c.minus (c.minus level (c.larger_of (f.div (c.minus x med) sd) (c.negated o.clip))) o.k))
        xs

  -- The round is the first whose level is above the threshold, counted from where the loop began.
  abbrev pub IsFirstAbove : List f.F → ℕ → f.F → ℕ → Type 0
  IsFirstAbove xs i level j =
      (n : ℕ) × (n < length xs)
      × (j ≡ i + n)
      × (f.lt o.h (level_after level (take (suc n) xs)) ≡ true)
      × ((m : ℕ) → m < n → f.lt o.h (level_after level (take (suc m) xs)) ≡ false)

  chart_rounds-tripped :
      (xs : List f.F) (i j : ℕ) (level : f.F)
      → (chart_rounds f c o med sd xs i level (some j)).1 ≡ some j
  unfolding chart_rounds
  chart_rounds-tripped [] i j level = refl
  chart_rounds-tripped (x ∷ xs) i j level =
      chart_rounds-tripped xs (suc i) j (next_level f c o med sd level x)

  first_here :
      (x : f.F) (xs : List f.F) (i j : ℕ) (level : f.F)
      → f.lt o.h (level_after level (x ∷ [])) ≡ true
      → IsFirstAbove (x ∷ xs) i level j
      → j ≡ i
  first_here x xs i j level e (zero, l, q, a, before) = omega (arith, q)
  first_here x xs i j level e (suc n, l, q, a, before) = absurd (cc (e, before 0 (omega arith)))

  first_later :
      (x : f.F) (xs : List f.F) (i j : ℕ) (level : f.F)
      → f.lt o.h (level_after level (x ∷ [])) ≡ false
      → IsFirstAbove (x ∷ xs) i level j
      → IsFirstAbove xs (suc i) (level_after level (x ∷ [])) j
  first_later x xs i j level e (zero, l, q, a, before) = absurd (cc (e, a))
  first_later x xs i j level e (suc n, l, q, a, before) =
      (n, omega (arith, l), omega (arith, q), a, λ m h. before (suc m) (omega (arith, h)))

  first_behind :
      (x : f.F) (xs : List f.F) (i j : ℕ) (level : f.F)
      → f.lt o.h (level_after level (x ∷ [])) ≡ false
      → IsFirstAbove xs (suc i) (level_after level (x ∷ [])) j
      → IsFirstAbove (x ∷ xs) i level j
  first_behind x xs i j level e (n, l, q, a, before) =
      (suc n, omega (arith, l), omega (arith, q), a, earlier)
    where
      earlier : (m : ℕ) → m < suc n → f.lt o.h (level_after level (take (suc m) (x ∷ xs))) ≡ false
      earlier zero h = e
      earlier (suc m) h = before m (omega (arith, h))

  chart_rounds-here :
      (x : f.F) (xs : List f.F) (i : ℕ) (level : f.F)
      → f.lt o.h (level_after level (x ∷ [])) ≡ true
      → (chart_rounds f c o med sd (x ∷ xs) i level none).1 ≡ some i
  unfolding chart_rounds next_level
  chart_rounds-here x xs i level e =
      let next : f.F = level_after level (x ∷ []) in
      ap (λ b. (chart_rounds f c o med sd xs (suc i) next (tripped f c b i none)).1) e
      ∙ chart_rounds-tripped xs (suc i) i next

  chart_rounds-later :
      (x : f.F) (xs : List f.F) (i : ℕ) (level : f.F)
      → f.lt o.h (level_after level (x ∷ [])) ≡ false
      → (chart_rounds f c o med sd (x ∷ xs) i level none).1
        ≡ (chart_rounds f c o med sd xs (suc i) (level_after level (x ∷ [])) none).1
  unfolding chart_rounds next_level
  chart_rounds-later x xs i level e =
      let next : f.F = level_after level (x ∷ []) in
      ap (λ b. (chart_rounds f c o med sd xs (suc i) next (tripped f c b i none)).1) e

  -- The loop trips at a round exactly when the level after that round is above the threshold and that
  -- after no earlier round is, whatever follows; the rounds are counted from where the loop began. The
  -- level after a round is the one before less the round's distance from the median, in deviations and
  -- no lower than the negated clip, and less `k`, or zero if that is more.
  pub chart_rounds_iff :
      (xs : List f.F) (i j : ℕ) (level : f.F)
      → ((chart_rounds f c o med sd xs i level none).1 ≡ some j) ↔ IsFirstAbove xs i level j
  chart_rounds_iff [] i j level =
      (unfold chart_rounds in λ h. absurd (cc), λ w. absurd (omega (arith, w.1)))
  chart_rounds_iff (x ∷ xs) i j level = elim (Bool-cases (f.lt o.h (level_after level (x ∷ [])))) [
    | inl e ↦
        let here = chart_rounds-here x xs i level e in
        (
          λ h. (0, omega arith, ground (arith, sym here ∙ h), e, λ m l. absurd (omega (arith, l))),
          λ w. here ∙ ap some (sym (first_here x xs i j level e w)),
        )
    | inr e ↦
        let later = chart_rounds-later x xs i level e in
        let rest = chart_rounds_iff xs (suc i) j (level_after level (x ∷ [])) in
        (
          λ h. first_behind x xs i j level e (rest.0 (sym later ∙ h)),
          λ w. later ∙ rest.1 (first_later x xs i j level e w),
        )
  ]
