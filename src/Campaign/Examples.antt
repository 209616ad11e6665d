-- ===== src/Campaign/Examples.antt =====
-- A campaign of three targets.
use pg_fuzz.Base.{
  arith, inr, inl, ◌≤◌, ℕ, ◌≡◌, refl, true, false, List, [], ◌∷◌, ◌++◌, Perm, Option, none, some,
  Text, Map, codes,
}
use pg_fuzz.Campaign.Order.{by_productivity, SeriesNewUnits}
use pg_fuzz.Campaign.Ranked.{Ordered, FoundMore, by_productivity-Ordered}
use pg_fuzz.Campaign.Rotation.{SliceResult}
use pg_fuzz.Campaign.Late.{past, past-launches}
use pg_fuzz.Campaign.Rounds.{
  finish_sweep, Turn, Launch, Reading, cut, launches, sweep, sweep-finish_round,
}
use pg_fuzz.Campaign.Series.{Slice, append_slice, read_series, read_series-append_slice}
use pg_fuzz.Float.Hundredths.{hundredths}

abbrev rows : List SeriesNewUnits
rows =
    record { ws = codes "pg17"; new_units = (codes "numeric", 4) ∷ (codes "regex", 9) ∷ [] }
    ∷ record { ws = codes "pg18"; new_units = (codes "numeric", 70) ∷ [] }
    ∷ record { ws = codes "pg17"; new_units = (codes "numeric", 5) ∷ [] }
    ∷ []

abbrev latest : Map ℕ
latest = (codes "numeric", 5) ∷ (codes "regex", 9) ∷ []

abbrev targets : List Text
targets = codes "numeric" ∷ codes "json" ∷ codes "regex" ∷ []

productive_first :
    by_productivity targets latest ≡ codes "regex" ∷ codes "numeric" ∷ codes "json" ∷ []
unfolding by_productivity
productive_first = refl

by_productivity-Ordered_example :
    Perm (by_productivity targets latest) targets
    × Ordered (FoundMore latest) (by_productivity targets latest)
by_productivity-Ordered_example = by_productivity-Ordered targets latest

abbrev seven : List ℕ
seven = 1 ∷ 2 ∷ 3 ∷ 4 ∷ 5 ∷ 6 ∷ 7 ∷ []

abbrev results : List SliceResult
results =
    record { target = codes "numeric"; failed = false; disk_stop = false }
    ∷ record { target = codes "json"; failed = true; disk_stop = false }
    ∷ []

abbrev slice : Slice hundredths
slice = record {
  run_id = codes "soak";
  round = 1;
  workspace = codes "pg17";
  target = codes "numeric";
  started = [];
  seconds = 60;
  jobs = 1;
  dict = false;
  execs = 90;
  new_units = 2;
  cov = 7;
  ft = 9;
  corpus = 3;
  corpus_before = 1;
  disk_stop = false;
  hung = false;
  peak_rss = 0;
  artifacts = 0;
  artifacts_before = 0;
  artifacts_after = 0;
  slowest = 0;
  cov_start = 0;
  ft_start = 0;
  cov_gained = 0;
  ft_gained = 0;
  last_new_edge_at = 0;
  last_exec_seen = 0;
  saturated_pct = none;
  alive = true;
}

abbrev marshal : Slice hundredths → Text
marshal s = s.target

abbrev unmarshal : Text → Option (Slice hundredths)
unmarshal target = some (record slice { target = target })

abbrev one_line : Text
one_line = codes "regex" ++ b'\n' ∷ []

read_series-append_slice_example :
    read_series hundredths marshal unmarshal
      (append_slice hundredths marshal unmarshal one_line slice)
    ≡ read_series hundredths marshal unmarshal one_line ++ slice ∷ []
read_series-append_slice_example =
    read_series-append_slice hundredths marshal unmarshal one_line slice refl refl refl refl

-- Two entries, of which the loop comes to the second past the deadline of 100.
abbrev turns : List Turn
turns =
    record { entry = codes "pg17"; at_stop = 90; at_deadline = 91; at_start = 92 }
    ∷ record { entry = codes "pg18"; at_stop = 110; at_deadline = 111; at_start = 111 }
    ∷ []

-- One at a time: the second entry is tested in time, and begins when the first is done. What is past
-- the deadline of 100 starts under `cut` all the same.
abbrev blocked : List Turn
blocked =
    record { entry = codes "pg17"; at_stop = 1; at_deadline = 2; at_start = 3 }
    ∷ record { entry = codes "pg18"; at_stop = 4; at_deadline = 5; at_start = 120 }
    ∷ []

blocked_test :
    launches cut 100 300 blocked
    ≡ record { entry = codes "pg17"; read = 3; until = 100 }
      ∷ record { entry = codes "pg18"; read = 120; until = 100 }
      ∷ []
unfolding launches
blocked_test = refl

-- Both bounds are reached: a third entry comes past the deadline, and is the one more.
abbrev three_turns : List Turn
three_turns =
    record { entry = codes "pg17"; at_stop = 1; at_deadline = 2; at_start = 3 }
    ∷ record { entry = codes "pg18"; at_stop = 4; at_deadline = 5; at_start = 120 }
    ∷ record { entry = codes "pg19"; at_stop = 121; at_deadline = 121; at_start = 125 }
    ∷ []

past_cut_test : past 100 (launches cut 100 300 three_turns) ≡ 1
unfolding launches
past_cut_test = refl

past_finish_sweep_test : past 100 (launches finish_sweep 100 300 three_turns) ≡ 2
unfolding launches
past_finish_sweep_test = refl

past-launches_example :
    (past 100 (launches cut 100 300 three_turns) ≤ 1)
    × (past 100 (launches finish_sweep 100 300 three_turns) ≤ 2)
past-launches_example = past-launches 100 300 0 three_turns (
  omega arith,
  omega arith,
  omega arith,
  (omega arith, omega arith, omega arith, (omega arith, omega arith, omega arith, tt)),
)

abbrev late_launch : Launch
late_launch = record { entry = codes "pg18"; read = 111; until = 100 }

abbrev readings : List Reading
readings =
    record {
      at = 112;
      result = record { target = codes "numeric"; failed = false; disk_stop = false };
    }
    ∷ []

sweep-finish_round_example : sweep 100 readings ≡ []
unfolding launches
sweep-finish_round_example =
    sweep-finish_round 100 300 turns late_launch readings (inr (inl refl)) (omega arith)
      (omega arith, tt)
