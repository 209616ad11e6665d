-- ===== src/Gate/Verdict.antt =====
-- go/internal/gate/gate.go: a gate's answer. A detail is a value with what its message is made of; the
-- wording is not modelled.
use pg_fuzz.Base.{ℕ, Bool, true, List, [], ◌∷◌, ◌++◌, Text}
use pg_fuzz.Logs.Stats.{Startup}

-- What a failed verdict is about.
pub data Subject : Type 0 where
  harness finding : Subject

pub data Detail : Type 0 where
  -- starvation
  no_count : Text → Startup → Detail
  known_below : Text → ℕ → ℕ → Text → Detail
  old_acknowledgement : Text → ℕ → Detail
  below : Text → ℕ → ℕ → Detail
  libfuzzer_aborted : Text → Detail
  died_early : Text → Detail
  only_replay : Text → ℕ → ℕ → ℕ → Detail
  -- slow-units
  slow_unit : Text → ℕ → ℕ → Detail
  -- ubsan
  unattributed : Text → Text → Detail
  not_accepted : Text → Text → ℕ → Text → Text → Detail
  -- round-complete
  never_ran : ℕ → ℕ → List Text → Detail
  short_round : Detail
  -- final-stats
  reported_stats : ℕ → ℕ → ℕ → ℕ → Detail
  silent_slices : List Text → Detail
  unverifiable : Detail
  -- ubsan-withdrawal
  all_quiet : ℕ → Detail
  withdrawable : Text → Detail
  quiet : ℕ → Text → Detail

pub record Verdict : Type 0 where
  pub name : Text
  pub failed : Bool
  pub detail : List Detail
  pub about : Subject

-- `v.Failed = true; v.Detail = append(v.Detail, d)`.
abbrev pub fail_with : Detail → Verdict → Verdict
fail_with d v = record v { failed = true; detail = v.detail ++ d ∷ [] }

-- `v.Detail = append(v.Detail, d)`.
abbrev pub say : Detail → Verdict → Verdict
say d v = record v { detail = v.detail ++ d ∷ [] }
