-- ===== src/Logs/Examples.antt =====
-- A short log: a corpus replayed, one undefined behaviour with its token, and two workers' totals.
use pg_fuzz.Base.{
  lookup, ℕ, ◌≡◌, ◌↔◌, ◌<◌, refl, true, false, List, [], ◌∷◌, none, some, codes, length, ltb,
  if◌then◌else◌,
}
use pg_fuzz.Float.Hundredths.{hundredths}
use pg_fuzz.Logs.Parse.{Line, parse, read_lines, read_line, conclude}
use pg_fuzz.Logs.Sites.{reports, open_reports, unnamed, parse_sites}
use pg_fuzz.Logs.Sweep.{
  SweepLine, fuzzing, execs_line, new_line, done_line, sweep_line, sweep_lines, sweep_rate,
  parse_sweep, parse_regime, frontier,
}
use pg_fuzz.Logs.Sections.{own}
use pg_fuzz.Logs.Attributed.{totals_of, parse_sweep-own}
use pg_fuzz.Logs.Totals.{parse-execs}
use pg_fuzz.Logs.Trajectory.{Point, summarise}
use pg_fuzz.Logs.Trajectory.Gains.{Describes, summarise-Describes}

abbrev plain : Line
plain = record {
  banner = false;
  aborted = false;
  progress = none;
  inited = none;
  done = none;
  stat = none;
  rss = none;
  cov_ft = none;
  corp = none;
  timeout = none;
  runs = none;
  avg_rate = none;
  ub = none;
  dedup = none;
  crash = none;
  trap = none;
}

abbrev worker : ℕ → ℕ → Line
worker n sec = record plain { done = some n; runs = some (n, sec) }

abbrev log : List Line
log =
    record plain { banner = true; progress = some (64, true); inited = some 64 }
    ∷ record plain { ub = some (codes "src/numeric.c", 120, codes "signed integer overflow") }
    ∷ record plain { dedup = some (codes "mul_var") }
    ∷ worker 700 60
    ∷ worker 300 61
    ∷ []

abbrev cut_log : List Line
cut_log =
    record plain { progress = some (64, true); inited = some 64 }
    ∷ record plain { progress = some (4096, false) }
    ∷ []

-- Two workers' runs are added, and their rate is over the longer one's seconds.
log_execs : (parse hundredths log).execs ≡ 1000
unfolding parse read_lines read_line conclude
log_execs = refl

abbrev nothing : ℕ
nothing = 0

parse-execs_example :
    ((parse hundredths cut_log).execs
      ≡ (if ltb 0 nothing then nothing else if ltb 0 nothing then nothing else 4096))
    × (((parse hundredths cut_log).partial ≡ true) ↔ ((nothing ≡ 0) × (nothing ≡ 0) × (0 < 4096)))
parse-execs_example = parse-execs hundredths cut_log nothing nothing 4096 refl refl refl

parse_sites_example :
    (length (parse hundredths log).ub ≡ reports log)
    × (unnamed (parse hundredths log).ub ≡ open_reports 0 log)
parse_sites_example = parse_sites hundredths log (tt, (tt, (refl, (tt, (tt, tt)))))

abbrev points : List Point
points =
    record { execs = 900; cov = 40; ft = 80; corpus = 7 }
    ∷ record { execs = 100; cov = 30; ft = 60; corpus = 5 }
    ∷ record { execs = 500; cov = 40; ft = 70; corpus = 6 }
    ∷ []

summarise-Describes_example : Describes hundredths (summarise hundredths points) points
summarise-Describes_example = summarise-Describes hundredths points (λ e. cc)

abbrev sweep_log : List SweepLine
sweep_log =
    execs_line 9
    ∷ fuzzing (codes "regex")
    ∷ execs_line 3
    ∷ fuzzing (codes "numeric")
    ∷ execs_line 4
    ∷ new_line 2
    ∷ done_line 40 10
    ∷ fuzzing (codes "regex")
    ∷ done_line 30 20
    ∷ execs_line 5
    ∷ []

sweep_test :
    lookup (codes "regex") (parse_sweep hundredths sweep_log)
    ≡ some (record { execs = 8; new_units = 0; rate = 150 })
unfolding parse_sweep sweep_lines sweep_line sweep_rate
sweep_test = refl

parse_sweep-own_example :
    lookup (codes "regex") (parse_sweep hundredths sweep_log)
    ≡ totals_of hundredths (own (codes "regex") [] sweep_log)
parse_sweep-own_example = parse_sweep-own hundredths (codes "regex") sweep_log refl

regime_test :
    parse_regime (record { jobs = none; secs = some 60; dict = true } ∷ [])
    ≡ record { jobs = 1; secs = 60; dict = true }
unfolding parse_regime
regime_test = refl

frontier_test : frontier (some (1, 2) ∷ none ∷ some (3, 4) ∷ none ∷ []) ≡ some (3, 4)
unfolding frontier
frontier_test = refl
