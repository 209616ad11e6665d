-- ===== src/Ratchet/Judged.antt =====
-- What `Check` concludes: when a target is regressed, when a report fails, and that each observation
-- has one judgement.
use mathlib.Core.List.Perm
use pg_fuzz.Base.{
  ℕ, ◌≡◌, refl, ◌↔◌, ◌≢◌, ◌⊎◌, inl, inr, sym, ap, ◌∙◌, true, false, ◌||◌, List, [], ◌∷◌, map, none,
  some, Text, Map, lookup, lookup_or, is_some, insert_by, sort_by, sort_by-perm, Perm, Any,
  Option-cases, Bool-cases, arith,
}
use pg_fuzz.Float.{Float}
use pg_fuzz.Ratchet.Defs.{
  regressed, Baseline, Observation, Judgement, is_regressed, any_regressed, failed,
}
use pg_fuzz.Ratchet.Check.{
  Record, other_regime, usable_rate, check_one, record_of, by_target, judge_all, check,
}

module _ (f : Float) where
  open f use {F, of_nat, mul, lt, le}

  -- Below the tolerated part of the rate floor, which decides wherever there is one and a rate.
  abbrev pub BelowRate : Record f → Observation f → Type 0
  BelowRate r o =
      (rf : F) × (usable_rate f r o ≡ some rf) × (le (mul rf r.tolerance) o.rate ≡ false)

  -- With no rate to go by, below the tolerated part of an execution floor of the same regime.
  abbrev pub BelowExecs : Record f → Observation f → Type 0
  BelowExecs r o =
      (floor : ℕ) × (usable_rate f r o ≡ none)
      × (lookup o.target r.floors ≡ some floor)
      × (other_regime f r o ≡ false)
      × (le (mul (of_nat floor) r.tolerance) (of_nat o.execs) ≡ false)

  -- A regression: below a comparable floor, and nobody has acknowledged the target.
  abbrev pub IsRegression : Record f → Observation f → Type 0
  IsRegression r o = (is_some (lookup o.target r.acks) ≡ false) × (BelowRate r o ⊎ BelowExecs r o)

  IsRegression-of :
      (r : Record f) (o : Observation f) → (check_one f r o).outcome ≡ regressed → IsRegression r o
  unfolding check_one
  IsRegression-of r o h = elim (Option-cases (usable_rate f r o)) [
    | inl u ↦ elim (Option-cases (lookup o.target r.floors)) [
      | inl l ↦ absurd (ground arith)
      | inr (v, l) ↦ (ground arith, inr (v, u, l, ground arith, ground arith))
    ]
    | inr (rf, u) ↦ (ground arith, inl (rf, u, ground arith))
  ]

  regressed_of :
      (r : Record f) (o : Observation f) → IsRegression r o → (check_one f r o).outcome ≡ regressed
  unfolding check_one
  regressed_of r o (a, inl (rf, u, b)) = rw (u, check_one) (ground arith)
  regressed_of r o (a, inr (v, u, l, s, b)) = rw (u, check_one) (ground arith)

  any_regressed-insert_by :
      (j : Judgement f) (js : List (Judgement f))
      → any_regressed f (insert_by (by_target f) j js)
        ≡ is_regressed f j.outcome || any_regressed f js
  any_regressed-insert_by j [] = refl
  any_regressed-insert_by j (i ∷ js) = ground (arith, any_regressed-insert_by j js)

  any_regressed-sort_by :
      (js : List (Judgement f)) → any_regressed f (sort_by (by_target f) js) ≡ any_regressed f js
  any_regressed-sort_by [] = refl
  any_regressed-sort_by (j ∷ js) =
      any_regressed-insert_by j (sort_by (by_target f) js)
      ∙ ap (λ b. is_regressed f j.outcome || b) (any_regressed-sort_by js)

  any_regressed_iff :
      (r : Record f) (obs : List (Observation f))
      → (any_regressed f (map (check_one f r) obs) ≡ true) ↔ Any (IsRegression r) obs
  any_regressed_iff r [] = (λ h. absurd (ground arith), λ h. absurd h)
  any_regressed_iff r (o ∷ obs) =
      let later = any_regressed_iff r obs in
      (
        λ h. elim (Bool-cases (is_regressed f (check_one f r o).outcome)) [
          | inl e ↦ inl (IsRegression-of r o (ground arith))
          | inr e ↦ inr (later.0 (rw e at h))
        ],
        elim [ inl h ↦ rw (regressed_of r o h) | inr h ↦ rw (later.1 h) (ground arith) ],
      )

  -- A report fails exactly when the workspace has a baseline and some observation is a regression
  -- against it.
  pub failed_iff :
      (b : Baseline f) (ws : Text) (obs : List (Observation f)) (acks : Map Text)
      → (failed f (check f b ws obs acks) ≡ true)
        ↔ ((lookup_or [] ws b.floors ≢ []) × Any (IsRegression (record_of f b ws acks)) obs)
  unfolding check
  failed_iff b ws obs acks = check_iff (lookup_or [] ws b.floors)
    where
      r : Record f
      r = record_of f b ws acks

      check_iff :
          (fl : Map ℕ)
          → (failed f (judge_all f ws r obs fl) ≡ true) ↔ ((fl ≢ []) × Any (IsRegression r) obs)
      check_iff [] = (λ h. absurd (ground arith), λ h. absurd (h.0 refl))
      check_iff (x ∷ fl) =
          let sorted = any_regressed-sort_by (map (check_one f r) obs) in
          (
            λ h. (λ e. cc, (any_regressed_iff r obs).0 (sym sorted ∙ h)),
            λ h. sorted ∙ (any_regressed_iff r obs).1 h.1,
          )

  target-check_one : (r : Record f) (o : Observation f) → (check_one f r o).target ≡ o.target
  unfolding check_one
  target-check_one r o = elim (Option-cases (usable_rate f r o)) [
    | inl u ↦ elim (Option-cases (lookup o.target r.floors)) [
      | inl l ↦ ground arith
      | inr (v, l) ↦ ground arith
    ]
    | inr (rf, u) ↦ ground arith
  ]

  targets-check_one :
      (r : Record f) (obs : List (Observation f))
      → map (λ j. j.target) (map (check_one f r) obs) ≡ map (λ o. o.target) obs
  targets-check_one r [] = refl
  targets-check_one r (o ∷ obs) = cc (target-check_one r o, targets-check_one r obs)

  -- Where the workspace has a baseline the report is not seeded, and it holds one judgement for each
  -- observation, under the observation's target.
  pub judged-perm :
      (b : Baseline f) (ws : Text) (obs : List (Observation f)) (acks : Map Text)
      → lookup_or [] ws b.floors ≢ []
      → ((check f b ws obs acks).seeded ≡ false)
        × Perm (map (λ j. j.target) (check f b ws obs acks).judged) (map (λ o. o.target) obs)
  unfolding check
  judged-perm b ws obs acks h = judged (lookup_or [] ws b.floors) h
    where
      r : Record f
      r = record_of f b ws acks

      judged :
          (fl : Map ℕ)
          → fl ≢ []
          → ((judge_all f ws r obs fl).seeded ≡ false)
            × Perm (map (λ j. j.target) (judge_all f ws r obs fl).judged) (map (λ o. o.target) obs)
      judged [] ne = absurd (ne refl)
      judged (x ∷ fl) ne =
          (refl, rw (← targets-check_one r obs) (Perm.map _ (sort_by-perm (by_target f) _)))
