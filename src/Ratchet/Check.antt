-- ===== src/Ratchet/Check.antt =====
-- go/internal/ratchet/ratchet.go: `Check`, which judges one round against the baseline.
use pg_fuzz.Base.{
  ℕ, Bool, true, false, not, ◌&&◌, ◌||◌, List, [], ◌∷◌, map, Option, none, some, Text, Map, lookup,
  lookup_or, is_empty, eq, less, sort_by, ltb, if◌then◌else◌, or_else, is_some,
}
use pg_fuzz.Float.{Float}
use pg_fuzz.Ratchet.Defs.{
  Outcome, pass, regressed, acknowledged, incomparable, no_floor, Baseline, Observation, Judgement,
  Report, tol,
}

module _ (f : Float) where
  open f use {F, of_nat, mul, lt, le}

  -- What one workspace's baseline holds, with the tolerance and the acknowledgements.
  pub record Record : Type 0 where
    pub floors : Map ℕ
    pub regimes : Map Text
    pub rate_floors : Map F
    pub tolerance : F
    pub acks : Map Text

  -- The outcome of the closure `judge`, and the note that goes with it.
  unfoldable pub verdict : Record → Text → F → F → Outcome
  verdict r target observed limit =
      if le (mul limit r.tolerance) observed
      then pass
      else if is_some (lookup target r.acks)
      then acknowledged
      else regressed

  note_of : Outcome → Option Text → Text
  note_of acknowledged why = or_else why []
  note_of _ why = []

  -- The closure `judge`.
  judge : Record → Observation f → F → F → ℕ → Bool → Judgement f
  unfolding verdict note_of
  judge r o observed limit exec_floor by_rate = record {
    target = o.target;
    outcome = verdict r o.target observed limit;
    observed = o.execs;
    floor = exec_floor;
    regime = o.regime;
    earned = [];
    note = note_of (verdict r o.target observed limit) (lookup o.target r.acks);
    by_rate = by_rate;
    rate = o.rate;
    rate_floor = if by_rate then limit else of_nat 0;
    exec_floor_skipped = false;
  }

  -- `o.Regime != "" && earned != o.Regime`.
  abbrev pub other_regime : Record → Observation f → Bool
  other_regime r o = not (is_empty o.regime) && not (eq (lookup_or [] o.target r.regimes) o.regime)

  -- A verdict by rate, which also says whether the execution floor was skipped.
  judge_rate : Record → Observation f → F → Judgement f
  unfolding judge
  judge_rate r o rf =
      let j = judge r o o.rate rf (lookup_or 0 o.target r.floors) true in
      if (is_some (lookup o.target r.regimes) || ltb 0 (lookup_or 0 o.target r.floors))
        && other_regime r o
      then record j { exec_floor_skipped = true; earned = lookup_or [] o.target r.regimes }
      else j

  abbrev blank : Observation f → Outcome → Judgement f
  blank o out = record {
    target = o.target;
    outcome = out;
    observed = o.execs;
    floor = 0;
    regime = [];
    earned = [];
    note = [];
    by_rate = false;
    rate = of_nat 0;
    rate_floor = of_nat 0;
    exec_floor_skipped = false;
  }

  -- A verdict by executions.
  judge_execs : Record → Observation f → Option ℕ → Judgement f
  unfolding judge
  judge_execs r o none = blank o no_floor
  judge_execs r o (some floor) =
      if other_regime r o
      then record (blank o incomparable) {
        floor = floor;
        regime = o.regime;
        earned = lookup_or [] o.target r.regimes;
      }
      else judge r o (of_nat o.execs) (of_nat floor) floor false

  -- `rf, ok := rateFloors[o.Target]; ok && o.Rate > 0`.
  abbrev pub usable_rate : Record → Observation f → Option F
  usable_rate r o = elim (lookup o.target r.rate_floors) [
    | none ↦ none
    | some rf ↦ if lt (of_nat 0) o.rate then some rf else none
  ]

  judge_by : Record → Observation f → Option F → Judgement f
  unfolding judge_rate judge_execs
  judge_by r o (some rf) = judge_rate r o rf
  judge_by r o none = judge_execs r o (lookup o.target r.floors)

  -- One round of the loop over the observations.
  unfoldable pub check_one : Record → Observation f → Judgement f
  unfolding judge_by
  check_one r o = judge_by r o (usable_rate r o)

  abbrev pub record_of : Baseline f → Text → Map Text → Record
  record_of b ws acks = record {
    floors = lookup_or [] ws b.floors;
    regimes = lookup_or [] ws b.regimes;
    rate_floors = lookup_or [] ws b.rate_floors;
    tolerance = tol f b;
    acks = acks;
  }

  abbrev pub by_target : Judgement f → Judgement f → Bool
  by_target i j = less i.target j.target

  pub judge_all : Text → Record → List (Observation f) → Map ℕ → Report f
  judge_all ws r obs [] = record { workspace = ws; seeded = true; judged = [] }
  judge_all ws r obs (_ ∷ _) = record {
    workspace = ws;
    seeded = false;
    judged = sort_by by_target (map (check_one r) obs);
  }

  -- `Check`.
  unfoldable pub check : Baseline f → Text → List (Observation f) → Map Text → Report f
  unfolding judge_all
  check b ws obs acks = judge_all ws (record_of b ws acks) obs (lookup_or [] ws b.floors)
