-- ===== src/Gate/Series.antt =====
-- go/internal/gate/ubsanseries.go: the accepted rows that went quiet over the rounds. The series file
-- is the list of the rounds that decode from its lines; one that cannot be read is the empty list.
use pg_fuzz.Base.{
  ℕ, ◌+◌, Bool, false, not, ◌&&◌, List, [], ◌∷◌, ◌++◌, map, Text, codes, eq, less, sort_by, keep,
  holds, ltb, leb, ◌==◌, if◌then◌else◌, length,
}
use mathlib.Core.List.{reverse}
use pg_fuzz.Gate.Verdict.{Verdict, Detail, finding, all_quiet, withdrawable, quiet}

pub record UbsanRound : Type 0 where
  pub ws : Text
  pub log : Text
  pub informative : Bool
  pub sites : List Text

abbrev pub withdraw_rounds : ℕ
withdraw_rounds = 3

-- `RecordUBSanRound`, on the rounds of the file.
unfoldable pub record_ubsan_round : List UbsanRound → UbsanRound → List UbsanRound
record_ubsan_round series r =
    series
    ++ record r {
      sites = sort_by less r.sites;
      informative = ltb 0 (length (sort_by less r.sites));
    }
      ∷ []

abbrev pub counts_for : Text → UbsanRound → Bool
counts_for ws r = eq r.ws ws && r.informative

-- The loop from the newest round down.
abbrev pub streak : Text → List UbsanRound → ℕ
streak token [] = 0
streak token (r ∷ rs) = let rest = streak token rs in if holds token r.sites then 0 else rest + 1

-- `AbsentStreak`.
unfoldable pub absent_streak : List UbsanRound → Text → Text → ℕ
absent_streak series ws token = streak token (reverse (keep (counts_for ws) series))

-- The rounds that a token has been quiet for, the one at hand included.
abbrev pub quiet_for : List UbsanRound → Text → Text → ℕ
quiet_for series ws token = absent_streak series ws token + 1

abbrev pub is_quiet : List Text → Text → Bool
is_quiet seen token = not (holds token seen)

abbrev pub is_withdrawable : List UbsanRound → Text → Text → Bool
is_withdrawable series ws token = leb withdraw_rounds (quiet_for series ws token)

-- The details on the rows that stay.
abbrev pub quiet_details : List UbsanRound → Text → List Text → List Detail
quiet_details series ws [] = []
quiet_details series ws (t ∷ ts) =
    let rest = quiet_details series ws ts in
    if ltb (quiet_for series ws t) withdraw_rounds
    then quiet (quiet_for series ws t) t ∷ rest
    else rest

-- Every row went quiet, of more than one.
abbrev pub is_alarm : List Text → List Text → Bool
is_alarm accepted silent = ltb 1 (length accepted) && (length silent == length accepted)

unfoldable pub withdrawal_details : List UbsanRound → Text → List Text → List Text → List Detail
withdrawal_details series ws accepted silent =
    if is_alarm accepted silent
    then all_quiet (length accepted) ∷ []
    else map withdrawable (sort_by less (keep (is_withdrawable series ws) silent))
      ++ quiet_details series ws (sort_by less silent)

-- `UBSanWithdrawals`. With no row accepted nothing is said.
unfoldable pub ubsan_withdrawals : List UbsanRound → Text → List Text → List Text → Verdict
unfolding withdrawal_details
ubsan_withdrawals series ws accepted seen = record {
  name = codes "ubsan-withdrawal";
  failed = false;
  detail = elim accepted [
    | [] ↦ []
    | t ∷ ts ↦ withdrawal_details series ws (t ∷ ts) (keep (is_quiet seen) (t ∷ ts))
  ];
  about = finding;
}
