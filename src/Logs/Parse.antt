-- ===== src/Logs/Parse.antt =====
-- go/internal/logs/logs.go: `Parse`. What the regular expressions and the substring tests give on a
-- line, once its colour codes are stripped, is a `Line`; Go's regexp package is not modelled. The
-- loop, and what it makes of each match, is.
use pg_fuzz.Base.{
  ℕ, ◌+◌, max, Bool, false, ◌&&◌, ◌||◌, List, [], ◌∷◌, ◌++◌, Option, none, some, Text, codes, ltb,
  ◌==◌, if◌then◌else◌, or_else, is_empty,
}
use pg_fuzz.Float.{Float}
use pg_fuzz.Logs.Stats.{Stats, UbSite, base, classify}

-- The keys of the `stat::` lines that are read.
pub data Stat : Type 0 where
  number_of_executed_units new_units_added slowest_unit_time_sec peak_rss_mb other_stat : Stat

pub record Line : Type 0 where
  -- One of the three lines by which libFuzzer announces itself.
  pub banner : Bool
  -- libFuzzer's words for a corpus that it could not use.
  pub aborted : Bool
  -- `reProgress`: the count, and whether the verb is INITED.
  pub progress : Option (ℕ × Bool)
  pub inited : Option ℕ
  pub done : Option ℕ
  pub stat : Option (Stat × ℕ)
  pub rss : Option ℕ
  pub cov_ft : Option (ℕ × ℕ)
  pub corp : Option ℕ
  pub timeout : Option ℕ
  -- `Done N runs in M second`.
  pub runs : Option (ℕ × ℕ)
  pub avg_rate : Option ℕ
  -- The path, line and message of a `runtime error`; the message is trimmed.
  pub ub : Option (Text × ℕ × Text)
  pub dedup : Option Text
  pub crash : Option Text
  pub trap : Option Text

-- What a progress line adds: nothing while the corpus is replayed.
abbrev pub progress_of : Option (ℕ × Bool) → ℕ
progress_of none = 0
progress_of (some (n, is_inited)) = if is_inited then 0 else n

abbrev pub executed_of : Option (Stat × ℕ) → ℕ
executed_of (some (number_of_executed_units, n)) = n
executed_of _ = 0

abbrev pub new_units_of : Option (Stat × ℕ) → ℕ
new_units_of (some (new_units_added, n)) = n
new_units_of _ = 0

abbrev pub slowest_of : Option (Stat × ℕ) → ℕ
slowest_of (some (slowest_unit_time_sec, n)) = n
slowest_of _ = 0

abbrev pub peak_of : Option (Stat × ℕ) → ℕ
peak_of (some (peak_rss_mb, n)) = n
peak_of _ = 0

abbrev pub runs_of : Option (ℕ × ℕ) → ℕ
runs_of none = 0
runs_of (some (n, sec)) = n

abbrev pub seconds_of : Option (ℕ × ℕ) → ℕ
seconds_of none = 0
seconds_of (some (n, sec)) = sec

abbrev cov_of : Option (ℕ × ℕ) → ℕ → ℕ
cov_of none old = old
cov_of (some (cov, ft)) old = cov

abbrev ft_of : Option (ℕ × ℕ) → ℕ → ℕ
ft_of none old = old
ft_of (some (cov, ft)) old = ft

-- `m != nil && s.X == 0`: the first value that is not zero stays.
abbrev first_of_them : ℕ → Option ℕ → ℕ
first_of_them old new = if old == 0 then or_else new 0 else old

abbrev pub is_unnamed : UbSite → Bool
is_unnamed u = is_empty u.function

unfoldable pub any_unnamed : List UbSite → Bool
any_unnamed [] = false
any_unnamed (u ∷ us) = is_unnamed u || any_unnamed us

-- The loop from the last site down, which names the first that has no name.
unfoldable pub attach : Text → List UbSite → List UbSite
unfolding any_unnamed
attach name [] = []
attach name (u ∷ us) =
    if any_unnamed us
    then u ∷ attach name us
    else if is_unnamed u
    then record u { function = name } ∷ us
    else u ∷ us

unfoldable pub site_of : Text × ℕ × Text → UbSite
site_of (path, line, text) = record {
  function = [];
  file = base path;
  line = line;
  class = classify text;
  text = text;
}

-- A site is added, and then the line is done with; else a token may name one.
unfoldable pub sites_after : Option (Text × ℕ × Text) → Option Text → List UbSite → List UbSite
unfolding site_of
sites_after (some found) dedup sites = sites ++ site_of found ∷ []
sites_after none (some name) sites = attach name sites
sites_after none none sites = sites

crash_list : Option Text → List Text
crash_list none = []
crash_list (some c) = c ∷ []

assert_list : Option Text → List Text
assert_list none = []
assert_list (some c) = (codes "Assert(" ++ (c ++ codes ")")) ∷ []

crashes_after : Option (Text × ℕ × Text) → Line → List Text → List Text
unfolding crash_list assert_list
crashes_after (some found) l crashes = crashes
crashes_after none l crashes = crashes ++ (crash_list l.crash ++ assert_list l.trap)

module _ (f : Float) where
  open f use {F, of_nat, mul, div, round}

  -- One round of the loop over the lines.
  unfoldable pub read_line : Stats f → Line → Stats f
  unfolding crashes_after
  read_line s l = record s {
    banner = s.banner || l.banner;
    aborted = s.aborted || l.aborted;
    progress_execs = max s.progress_execs (progress_of l.progress);
    inited = first_of_them s.inited l.inited;
    done = or_else l.done s.done;
    stat_execs = s.stat_execs + executed_of l.stat;
    new_units = s.new_units + new_units_of l.stat;
    slowest_unit = max s.slowest_unit (slowest_of l.stat);
    peak_rss = max (max s.peak_rss (peak_of l.stat)) (or_else l.rss 0);
    cov = cov_of l.cov_ft s.cov;
    ft = ft_of l.cov_ft s.ft;
    corpus = or_else l.corp s.corpus;
    timeout = first_of_them s.timeout l.timeout;
    runs = s.runs + runs_of l.runs;
    seconds = max s.seconds (seconds_of l.runs);
    avg_rate = first_of_them s.avg_rate l.avg_rate;
    ub = sites_after l.ub l.dedup s.ub;
    crashes = crashes_after l.ub l s.crashes;
  }

  unfoldable pub read_lines : Stats f → List Line → Stats f
  read_lines s [] = s
  read_lines s (l ∷ ls) = read_lines (read_line s l) ls

  abbrev completed : Stats f → ℕ
  completed s = if ltb 0 s.runs then s.runs else s.stat_execs

  abbrev per_second : ℕ → ℕ → F
  per_second runs seconds =
      div (round (mul (div (of_nat runs) (of_nat seconds)) (of_nat 100))) (of_nat 100)

  -- What is computed behind the loop: the executions, whether they are a lower bound, and the rate.
  unfoldable pub conclude : Stats f → Stats f
  conclude s =
      let cut = completed s == 0 && ltb 0 s.progress_execs in
      record s {
        execs = if cut then s.progress_execs else completed s;
        partial = cut;
        rate =
            if ltb 0 s.seconds && ltb 0 s.runs
            then per_second s.runs s.seconds
            else if ltb 0 s.avg_rate
            then of_nat s.avg_rate
            else s.rate;
      }

  -- The zero `Stats`.
  abbrev pub blank : Stats f
  blank = record {
    target = [];
    inited = 0;
    done = 0;
    execs = 0;
    partial = false;
    new_units = 0;
    slowest_unit = 0;
    peak_rss = 0;
    cov = 0;
    ft = 0;
    corpus = 0;
    timeout = 0;
    runs = 0;
    seconds = 0;
    rate = of_nat 0;
    ub = [];
    crashes = [];
    banner = false;
    aborted = false;
    avg_rate = 0;
    stat_execs = 0;
    progress_execs = 0;
  }

  -- `Parse`.
  unfoldable pub parse : List Line → Stats f
  unfolding read_line read_lines conclude
  parse ls = conclude (read_lines blank ls)
