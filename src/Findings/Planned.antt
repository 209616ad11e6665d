-- ===== src/Findings/Planned.antt =====
-- A plan that says no reason to skip can be run.
use pg_fuzz.Base.{
  ◌≤◌, ◌<◌, true, false, List, [], ◌∷◌, Text, is_empty, length, length-take, ltb, sort_by, less,
  ◌≡◌, ◌⊎◌, refl, inl, inr, arith, Bool-cases,
}
use pg_fuzz.Findings.Areas.{Finding}
use pg_fuzz.Findings.Plans.{
  Vehicle, unknown, lib_fuzzer, sql, storage_scenario, Plan, max_artifacts, Held, paths,
  artifacts_in, found_target, workspace_of, plan_for, plan_with, bare_plan, vehicle_of, no_artifact,
}

length-artifacts_in : (d : Held) → length (artifacts_in d) ≤ max_artifacts
unfolding artifacts_in
length-artifacts_in d =
    elim (Bool-cases (ltb max_artifacts (length (sort_by less (paths d.files))))) [
      | inl e ↦ rw e (
          omega
            (arith, length-take max_artifacts (sort_by less (paths d.files)) (ground (arith, e))))
      | inr e ↦ rw e (ground (arith, e))
    ]

-- What a plan has that is to be run.
abbrev pub CanRun : Finding → Held → Plan → Type 0
CanRun f d p =
    ((p.vehicle ≡ lib_fuzzer)
      × (p.target ≡ found_target f)
      × (is_empty p.target ≡ false)
      × (p.artifacts ≡ artifacts_in d)
      × (0 < length p.artifacts)
      × (length p.artifacts ≤ max_artifacts))
    ⊎ ((p.vehicle ≡ sql) × (is_empty (found_target f) ≡ true) × (d.has_sql ≡ true))
    ⊎ ((p.vehicle ≡ storage_scenario) × (is_empty (found_target f) ≡ true) × (d.has_seed ≡ true))

no_artifact-length : (as' : List Text) → is_empty (no_artifact as') ≡ true → 0 < length as'
no_artifact-length [] h = absurd (cc)
no_artifact-length (a ∷ as') h = omega arith

-- The plan of a finding by its vehicle.
plan_with-CanRun :
    (v : Vehicle) (f : Finding) (d : Held) (ws : Text)
    → vehicle_of (found_target f) d ≡ v
    → is_empty (plan_with v f d ws (bare_plan f)).skip ≡ true
    → ((plan_with v f d ws (bare_plan f)).workspace ≡ ws)
      × (is_empty ws ≡ false)
      × CanRun f d (plan_with v f d ws (bare_plan f))
plan_with-CanRun v f d ws e h = elim (Bool-cases (is_empty ws)) [
  | inl w ↦ absurd (none_there v h w)
  | inr w ↦ there v e h w
]
  where
    none_there :
        (v : Vehicle)
        → is_empty (plan_with v f d ws (bare_plan f)).skip ≡ true
        → is_empty ws ≡ true
        → ⊥
    none_there unknown h w = cc
    none_there lib_fuzzer h w = cc (rw w at h)
    none_there sql h w = cc (rw w at h)
    none_there storage_scenario h w = cc (rw w at h)

    there :
        (v : Vehicle)
        → vehicle_of (found_target f) d ≡ v
        → is_empty (plan_with v f d ws (bare_plan f)).skip ≡ true
        → is_empty ws ≡ false
        → ((plan_with v f d ws (bare_plan f)).workspace ≡ ws)
          × (is_empty ws ≡ false)
          × CanRun f d (plan_with v f d ws (bare_plan f))
    there unknown e h w = absurd (cc)
    there lib_fuzzer e h w = rw w (
      refl,
      refl,
      inl (
        refl,
        refl,
        ground (arith, e),
        refl,
        no_artifact-length (artifacts_in d) (rw w at h),
        length-artifacts_in d,
      ),
    )
    there sql e h w = rw w (refl, refl, inr (inl (refl, ground (arith, e), ground (arith, e))))
    there storage_scenario e h w =
        rw w (refl, refl, inr (inr (refl, ground (arith, e), ground (arith, e))))

-- A plan with no reason to skip names the workspace that the write-up resolves to, and one of three
-- things holds: its target is in the write-up and there are between one and twelve recorded inputs to
-- run; or there is no target but a file of SQL; or there is no target but a seed of a scenario.
pub plan_for-CanRun :
    (f : Finding) (d : Held) (ws_for : Text → Text)
    → is_empty (plan_for f d ws_for).skip ≡ true
    → ((plan_for f d ws_for).workspace ≡ ws_for (workspace_of f))
      × (is_empty (ws_for (workspace_of f)) ≡ false)
      × CanRun f d (plan_for f d ws_for)
unfolding plan_for
plan_for-CanRun f d ws_for h =
    plan_with-CanRun (vehicle_of (found_target f) d) f d (ws_for (workspace_of f)) refl h
