-- ===== src/Logs/Totals.antt =====
-- What `Parse` adds up, and when its execution count is only a lower bound.
use pg_fuzz.Base.{ℕ, ◌+◌, ◌<◌, max, ◌≡◌, ◌↔◌, true, List, [], ◌∷◌, ltb, if◌then◌else◌, arith}
use pg_fuzz.Float.{Float}
use pg_fuzz.Logs.Parse.{
  Line, progress_of, executed_of, new_units_of, slowest_of, runs_of, seconds_of, blank, read_line,
  read_lines, parse,
}
use pg_fuzz.Logs.Stats.{Stats}

abbrev pub total : (Line → ℕ) → List Line → ℕ
total g [] = 0
total g (l ∷ ls) = g l + total g ls

abbrev pub greatest : (Line → ℕ) → List Line → ℕ
greatest g [] = 0
greatest g (l ∷ ls) = max (g l) (greatest g ls)

module _ (f : Float) where
  -- The figures that the loop adds up, or takes the largest of, from `s` on.
  pub record Adds (s t : Stats f) (ls : List Line) : Type 0 where
    pub runs : t.runs ≡ s.runs + total (λ l. runs_of l.runs) ls
    pub seconds : t.seconds ≡ max s.seconds (greatest (λ l. seconds_of l.runs) ls)
    pub executed : t.stat_execs ≡ s.stat_execs + total (λ l. executed_of l.stat) ls
    pub progress :
        t.progress_execs ≡ max s.progress_execs (greatest (λ l. progress_of l.progress) ls)
    pub new_units : t.new_units ≡ s.new_units + total (λ l. new_units_of l.stat) ls
    pub slowest : t.slowest_unit ≡ max s.slowest_unit (greatest (λ l. slowest_of l.stat) ls)

  read_lines-Adds : (s : Stats f) (ls : List Line) → Adds s (read_lines f s ls) ls
  unfolding read_lines read_line
  read_lines-Adds s [] = omega arith
  read_lines-Adds s (l ∷ ls) =
      let rest = read_lines-Adds (read_line f s l) ls in
      record {
        runs = omega (arith, rest.runs);
        seconds = omega (arith, rest.seconds);
        executed = omega (arith, rest.executed);
        progress = omega (arith, rest.progress);
        new_units = omega (arith, rest.new_units);
        slowest = omega (arith, rest.slowest);
      }

  -- The counts of all workers are added and the longest worker's seconds are taken; the units added
  -- are summed and the slowest unit is the slowest of all.
  pub parse-Adds : (ls : List Line) → Adds (blank f) (parse f ls) ls
  unfolding parse
  parse-Adds ls =
      let rest = read_lines-Adds (blank f) ls in
      record {
        runs = rest.runs;
        seconds = rest.seconds;
        executed = rest.executed;
        progress = rest.progress;
        new_units = rest.new_units;
        slowest = rest.slowest;
      }

  -- The execution count is the sum of the completed runs if any run completed, else the sum of the
  -- `stat::` lines; where both are nothing it is the highest count on a progress line that is not
  -- INITED, and exactly then, if that is above nothing, it is marked as partial.
  pub parse-execs :
      (ls : List Line) (done stats seen : ℕ)
      → total (λ l. runs_of l.runs) ls ≡ done
      → total (λ l. executed_of l.stat) ls ≡ stats
      → greatest (λ l. progress_of l.progress) ls ≡ seen
      → ((parse f ls).execs ≡ (if ltb 0 done then done else if ltb 0 stats then stats else seen))
        × (((parse f ls).partial ≡ true) ↔ ((done ≡ 0) × (stats ≡ 0) × (0 < seen)))
  unfolding parse
  parse-execs ls done stats seen d s p =
      let rest = read_lines-Adds (blank f) ls in
      (
        ground (arith, rest.runs, rest.executed, rest.progress),
        (
          λ h. ground (arith, rest.runs, rest.executed, rest.progress),
          λ h. ground (arith, rest.runs, rest.executed, rest.progress),
        ),
      )
