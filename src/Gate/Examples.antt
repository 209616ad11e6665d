-- ===== src/Gate/Examples.antt =====
-- The gates on small runs.
use pg_fuzz.Base.{
  ℕ, refl, map, ◌<◌, ◌≡◌, ◌↔◌, ◌⊎◌, Bool, true, false, List, [], ◌∷◌, Option, none, some, Text,
  codes, eq, Map, lookup, length, All, Any, holds,
}
use pg_fuzz.Float.Hundredths.{hundredths}
use pg_fuzz.Gate.Rounds.{round_complete, round_complete_iff}
use pg_fuzz.Gate.Series.{UbsanRound, ubsan_withdrawals}
use pg_fuzz.Gate.Quiet.{QuietTwice}
use pg_fuzz.Gate.Reports.{IsRejected, IsKeyOf, ubsan_reports}
use pg_fuzz.Gate.Sites.{Distinct, named_by}
use mathlib.Core.List.{reverse}
use pg_fuzz.Gate.Starvation.{starvation, slow_limit, slow_units_in}
use pg_fuzz.Gate.Starved.{starvation_iff}
use pg_fuzz.Gate.Ubsan.{Accepted, ubsan}
use pg_fuzz.Gate.Withdrawals.{withdraws, ubsan_withdrawals_iff}
use pg_fuzz.Logs.Parse.{blank}
use pg_fuzz.Logs.Stats.{Stats, UbSite, replay_only}

abbrev slow_run : Stats hundredths
slow_run = record (blank hundredths) {
  target = codes "numeric";
  execs = 90;
  done = 90;
  timeout = 5;
  slowest_unit = 9;
}

abbrev no_date : Text → Option ℕ
no_date row = none

abbrev no_rows : Map Text
no_rows = []

starvation_iff_example : ((starvation hundredths no_date slow_run 100 no_rows).failed ≡ true) ↔ (
    ((slow_run.execs ≡ 0) × (slow_run.done ≡ 0))
    ⊎ (((90 < 100) × (lookup (codes "numeric") no_rows ≡ none))
        ⊎ ((false ≡ true) ⊎ (replay_only hundredths slow_run ≡ true))))
starvation_iff_example = starvation_iff hundredths no_date slow_run 100 no_rows

slow_units_in_test :
    (slow_units_in hundredths slow_run true (some (codes "timeout = 60"))).failed ≡ true
unfolding slow_units_in slow_limit
slow_units_in_test = refl

abbrev same_glob : Text → Text → Bool
same_glob = eq

abbrev rows : List Accepted
rows =
    record {
      function = codes "mul_var";
      scope = codes "pg17" ∷ [];
      site = codes "numeric.c";
      class = codes "signed-overflow";
    }
    ∷ []

abbrev sites : List UbSite
sites =
    record { function = codes "mul_var"; file = codes "a.c"; line = 3; class = []; text = [] }
    ∷ record { function = codes "div_var"; file = codes "a.c"; line = 9; class = []; text = [] }
    ∷ record { function = codes "div_var"; file = codes "a.c"; line = 9; class = []; text = [] }
    ∷ []

ubsan_reports_example :
    (((ubsan same_glob sites (codes "pg17") rows).failed ≡ true)
      ↔ Any (IsRejected same_glob rows (codes "pg17")) sites)
    × ((keys : List Text) × Distinct same_glob rows (codes "pg17") keys
        × (map named_by (ubsan same_glob sites (codes "pg17") rows).detail ≡ reverse keys)
        × All
            (λ u.
              IsRejected same_glob rows (codes "pg17") u
              → Any (λ k. IsKeyOf same_glob rows (codes "pg17") k u) keys)
            sites
        × All
            (λ k.
              Any
                (λ u.
                  IsRejected same_glob rows (codes "pg17") u
                  × IsKeyOf same_glob rows (codes "pg17") k u)
                sites)
            keys)
ubsan_reports_example = ubsan_reports same_glob rows (codes "pg17") sites

abbrev built : List Text
built = codes "numeric" ∷ codes "regex" ∷ []

round_complete_iff_example :
    ((round_complete (codes "regex" ∷ []) built).failed ≡ false)
    ↔ All (λ t. Any (λ s. s ≡ t) (codes "regex" ∷ [])) built
round_complete_iff_example = round_complete_iff (codes "regex" ∷ []) built

abbrev quiet_round : UbsanRound
quiet_round = record {
  ws = codes "pg17";
  log = [];
  informative = true;
  sites = codes "div_var" ∷ [];
}

abbrev series : List UbsanRound
series = quiet_round ∷ quiet_round ∷ []

abbrev one_accepted : List Text
one_accepted = codes "mul_var" ∷ []

-- A round that saw no site at all still makes the only accepted row withdrawable.
ubsan_withdrawals_iff_example :
    (withdraws (codes "mul_var") (ubsan_withdrawals series (codes "pg17") one_accepted []).detail
      ≡ true)
    ↔ ((holds (codes "mul_var") one_accepted ≡ true)
        × (holds (codes "mul_var") [] ≡ false)
        × QuietTwice series (codes "pg17") (codes "mul_var")
        × (¬ ((1 < length one_accepted) × All (λ t. holds t [] ≡ false) one_accepted)))
ubsan_withdrawals_iff_example =
    ubsan_withdrawals_iff series (codes "pg17") (codes "mul_var") one_accepted []
