-- ===== src/Corpus/Examples.antt =====
-- A sweep of two targets, one of them locked.
use pg_fuzz.Base.{
  ℕ, ◌≡◌, ◌↔◌, ap, inl, inr, eq, Bool-cases, true, false, List, [], ◌∷◌, none, some, Text, Map,
  codes, lookup, if◌then◌else◌, arith,
}
use pg_fuzz.Corpus.Capped.{caps, CapsTo, autocap_iff}
use pg_fuzz.Corpus.Caps.{AutocapOptions, autocap}
use pg_fuzz.Corpus.Sections.{apply_all, named, section, parse_sweep_for_cap-section}
use pg_fuzz.Corpus.Sweep.{TargetLog, CapLine, no_log, parse_sweep_for_cap}
use pg_fuzz.Corpus.Tune.{default_tune, tune}
use pg_fuzz.Corpus.Tuned.{InBounds, RanInBounds, tune-InBounds}
use pg_fuzz.Float.Hundredths.{hundredths}

abbrev plain : CapLine
plain = record {
  relevant = true;
  banner = none;
  has_max_total = false;
  max_total = none;
  has_files = false;
  files_found = none;
  has_inited = false;
  hash = none;
  exec_s = none;
  has_done = false;
  has_new_units = false;
  has_average = false;
  trailing = none;
}

abbrev sweep : List CapLine
sweep =
    record plain { banner = some (codes "regex") }
    ∷ record plain { has_max_total = true; max_total = some 90 }
    ∷ record plain { has_new_units = true; trailing = some 3 }
    ∷ record plain { banner = some (codes "numeric") }
    ∷ record plain { has_new_units = true; trailing = some 5 }
    ∷ record plain { banner = some (codes "regex") }
    ∷ record plain { has_new_units = true; trailing = some 4 }
    ∷ []

parse_sweep_for_cap-section_example : lookup (codes "regex") (parse_sweep_for_cap sweep) ≡ (
    if named (codes "regex") sweep
    then some (apply_all no_log (section (codes "regex") sweep none))
    else none)
parse_sweep_for_cap-section_example = parse_sweep_for_cap-section (codes "regex") sweep

abbrev locked_log : TargetLog
locked_log = record {
  budget = 90;
  files = 9000;
  inited = some 9000;
  done = some 9000;
  replay_rate = 100;
  rate = 0;
  new_units = 300;
}

abbrev per : Map TargetLog
per = (codes "regex", locked_log) ∷ []

abbrev options : AutocapOptions hundredths
options = record { fraction = 33; warn_fraction = 66; floor = 500; all = false; skip = [] }

abbrev count_files : Text → ℕ
count_files t = 9000

autocap_iff_example :
    (caps hundredths count_files (codes "regex") 2970 (autocap hundredths count_files per options)
      ≡ true)
    ↔ ((d : TargetLog) × (lookup (codes "regex") per ≡ some d)
        × CapsTo hundredths count_files options (codes "regex") 2970 d)
autocap_iff_example = autocap_iff hundredths count_files per options (codes "regex") 2970

abbrev no_logs : Map TargetLog
no_logs = []

abbrev no_budgets : Map ℕ
no_budgets = []

abbrev found_more : TargetLog
found_more = record locked_log { done = some 9900; new_units = 3000 }

abbrev productive : Map TargetLog
productive = (codes "json", found_more) ∷ []

ran_in_bounds : RanInBounds default_tune productive
ran_in_bounds t d h k = elim (Bool-cases (eq (codes "json") t)) [
  | inl e ↦
      let there : some found_more ≡ some d = rw e at h in
      let same : found_more ≡ d = cc there in omega (arith, ap (λ l. l.budget) same)
  | inr e ↦ let there : none ≡ some d = rw e at h in absurd (cc there)
]

none_set : InBounds default_tune no_budgets
none_set t v h = absurd (cc h)

tune-InBounds_example : InBounds default_tune (tune productive no_budgets default_tune).cur
tune-InBounds_example = tune-InBounds productive no_budgets default_tune ran_in_bounds none_set
