-- ===== src/Logs/Sweep.antt =====
-- go/internal/logs/sweep.go: the totals of each target in a log of many, the regime of a round and the
-- frontier of a slice. A line is given as the regular expressions match it, the first that does.
use pg_fuzz.Base.{
  ℕ, ◌+◌, Bool, false, ◌&&◌, List, [], ◌∷◌, Option, none, some, Text, Map, is_empty, lookup_or, put,
  ltb, if◌then◌else◌,
}
use pg_fuzz.Float.{Float}

pub data SweepLine : Type 0 where
  fuzzing : Text → SweepLine
  execs_line new_line average_line : ℕ → SweepLine
  done_line : ℕ → ℕ → SweepLine
  other_line : SweepLine

-- The loop's maps and its target.
pub record SweepState : Type 0 where
  pub target : Text
  pub execs : Map ℕ
  pub new_units : Map ℕ
  pub average : Map ℕ
  pub runs : Map ℕ
  pub secs : Map ℕ

abbrev pub at_start : SweepState
at_start = record { target = []; execs = []; new_units = []; average = []; runs = []; secs = [] }

-- `m[t] += n`.
abbrev pub add_at : Text → ℕ → Map ℕ → Map ℕ
add_at t n m = put t (lookup_or 0 t m + n) m

abbrev pub raise_at : Text → ℕ → Map ℕ → Map ℕ
raise_at t n m = if ltb (lookup_or 0 t m) n then put t n m else m

abbrev pub credit_line : Text → SweepLine → SweepState → SweepState
credit_line t (fuzzing name) s = s
credit_line t (execs_line n) s = record s { execs = add_at t n s.execs }
credit_line t (new_line n) s = record s { new_units = add_at t n s.new_units }
credit_line t (average_line n) s = record s { average = add_at t n s.average }
credit_line t (done_line n secs) s = record s {
  runs = add_at t n s.runs;
  secs = raise_at t secs s.secs;
}
credit_line t other_line s = s

-- One round of the loop of `ParseSweep`.
unfoldable pub sweep_line : SweepLine → SweepState → SweepState
sweep_line (fuzzing name) s = record s { target = name }
sweep_line (execs_line n) s = if is_empty s.target then s else credit_line s.target (execs_line n) s
sweep_line (new_line n) s = if is_empty s.target then s else credit_line s.target (new_line n) s
sweep_line (average_line n) s =
    if is_empty s.target then s else credit_line s.target (average_line n) s
sweep_line (done_line n secs) s =
    if is_empty s.target then s else credit_line s.target (done_line n secs) s
sweep_line other_line s = s

unfoldable pub sweep_lines : List SweepLine → SweepState → SweepState
sweep_lines [] s = s
sweep_lines (l ∷ ls) s = sweep_lines ls (sweep_line l s)

module _ (f : Float) where
  open f use {F, of_nat, mul, div, round}

  pub record SweepStats : Type 0 where
    pub execs : ℕ
    pub new_units : ℕ
    pub rate : F

  -- The rate: of the completed runs, or else the average that was printed.
  unfoldable pub sweep_rate : ℕ → ℕ → ℕ → F
  sweep_rate runs secs average =
      if ltb 0 secs && ltb 0 runs
      then div (round (mul (div (of_nat runs) (of_nat secs)) (of_nat 100))) (of_nat 100)
      else if ltb 0 average
      then of_nat average
      else of_nat 0

  abbrev pub stats_at : SweepState → Text → ℕ → SweepStats
  stats_at s t e = record {
    execs = e;
    new_units = lookup_or 0 t s.new_units;
    rate = sweep_rate (lookup_or 0 t s.runs) (lookup_or 0 t s.secs) (lookup_or 0 t s.average);
  }

  abbrev pub stats_of : SweepState → Map ℕ → Map SweepStats
  stats_of s [] = []
  stats_of s ((t, e) ∷ m) = (t, stats_at s t e) ∷ stats_of s m

  -- `ParseSweep`.
  unfoldable pub parse_sweep : List SweepLine → Map SweepStats
  parse_sweep ls = let s = sweep_lines ls at_start in stats_of s s.execs

pub record Regime : Type 0 where
  pub jobs : ℕ
  pub secs : ℕ
  pub dict : Bool

-- A line with `max_total_time=`: the numbers behind its flags, and whether it has a dictionary.
pub record Invocation : Type 0 where
  pub jobs : Option ℕ
  pub secs : Option ℕ
  pub dict : Bool

abbrev number_or : ℕ → Option ℕ → ℕ
number_or d none = d
number_or d (some n) = n

-- `ParseRegime`, of the lines with `max_total_time=`: the first is read.
unfoldable pub parse_regime : List Invocation → Regime
parse_regime [] = record { jobs = 1; secs = 0; dict = false }
parse_regime (i ∷ is) = record {
  jobs = number_or 1 i.jobs;
  secs = number_or 0 i.secs;
  dict = i.dict;
}

abbrev last_seen : Option (ℕ × ℕ) → Option (ℕ × ℕ) → Option (ℕ × ℕ)
last_seen none o = o
last_seen (some p) o = some p

-- `Frontier`, of the lines with `cov: `: the last that gives both numbers.
unfoldable pub frontier : List (Option (ℕ × ℕ)) → Option (ℕ × ℕ)
frontier [] = none
frontier (l ∷ ls) = last_seen (frontier ls) l
