-- ===== src/Ratchet/Defs.antt =====
-- go/internal/ratchet/ratchet.go: the baseline, observations, judgements and reports.
use pg_fuzz.Base.{ℕ, Bool, true, false, ◌||◌, List, [], ◌∷◌, Option, Text, Map, if◌then◌else◌}
use pg_fuzz.Float.{Float}

-- How one target was judged.
pub data Outcome : Type 0 where
  pass regressed acknowledged incomparable no_floor : Outcome

-- One state transition of a floor, and a floor that was archived because the regime changed.
pub record Change : Type 0 where
  pub target : Text
  pub kind : Text
  pub from : Option ℕ
  pub to : ℕ

pub record Switch : Type 0 where
  pub target : Text
  pub from : Text
  pub value : ℕ

pub record UpdateResult : Type 0 where
  pub added : ℕ
  pub raised : ℕ
  pub rate_added : ℕ
  pub rate_raised : ℕ
  pub switched : List Switch
  pub changes : List Change

module _ (f : Float) where
  open f use {F, of_nat, div, lt}

  -- The archive is kept decoded; the raw JSON of other fields is carried, and nothing here reads it.
  pub record Baseline : Type 0 where
    pub tolerance : F
    pub floors : Map (Map ℕ)
    pub regimes : Map (Map Text)
    pub rate_floors : Map (Map F)
    pub archive : Map (Map (Map ℕ))

  pub record Observation : Type 0 where
    pub target : Text
    pub execs : ℕ
    pub rate : F
    pub new_units : ℕ
    pub regime : Text

  pub record Judgement : Type 0 where
    pub target : Text
    pub outcome : Outcome
    pub observed : ℕ
    pub floor : ℕ
    pub regime : Text
    pub earned : Text
    pub note : Text
    pub by_rate : Bool
    pub rate : F
    pub rate_floor : F
    pub exec_floor_skipped : Bool

  pub record Report : Type 0 where
    pub workspace : Text
    pub seeded : Bool
    pub judged : List Judgement

  abbrev pub is_regressed : Outcome → Bool
  is_regressed regressed = true
  is_regressed _ = false

  abbrev pub any_regressed : List Judgement → Bool
  any_regressed [] = false
  any_regressed (j ∷ js) = is_regressed j.outcome || any_regressed js

  -- `Report.Failed`.
  abbrev pub failed : Report → Bool
  failed r = any_regressed r.judged

  -- `DefaultTolerance` is a tenth.
  abbrev pub default_tolerance : F
  default_tolerance = div (of_nat 1) (of_nat 10)

  -- `Baseline.Tol`.
  unfoldable pub tol : Baseline → F
  tol b = if lt (of_nat 0) b.tolerance then b.tolerance else default_tolerance
