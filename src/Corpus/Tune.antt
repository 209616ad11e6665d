-- ===== src/Corpus/Tune.antt =====
-- go/internal/corpus/autocap.go: `Tune`, which moves the budgets. The source multiplies and divides
-- by 1.5 in float64, which for budgets below 2^50 seconds is the division on whole numbers that
-- stands here. Of `Budgets`, which is keyed by workspace and target, the part of the workspace at
-- hand is kept, by target: the others are not touched.
use pg_fuzz.Base.{
  ℕ, ◌*◌, ◌/◌, min, max, ◌||◌, List, [], ◌∷◌, ◌++◌, Option, none, some, Text, Map, lookup, put,
  keys, less, sort_by, ltb, leb, ◌==◌, if◌then◌else◌, or_else,
}
use pg_fuzz.Corpus.Sweep.{TargetLog, locked}

pub record BudgetChange : Type 0 where
  pub target : Text
  pub was : ℕ
  pub want : ℕ
  pub found : ℕ

pub record TuneOptions : Type 0 where
  pub high : ℕ
  pub low : ℕ
  pub base_budget : ℕ
  pub max_budget : ℕ

abbrev pub default_tune : TuneOptions
default_tune = record { high = 2000; low = 200; base_budget = 90; max_budget = 600 }

-- The switch on what a run found: nothing between the thresholds.
unfoldable pub want_of : TuneOptions → ℕ → ℕ → ℕ
want_of o new_units have =
    if leb o.high new_units
    then min (have * 3 / 2) o.max_budget
    else if ltb new_units o.low
    then max (have * 2 / 3) o.base_budget
    else have

pub record Tuning : Type 0 where
  pub cur : Map ℕ
  pub changed : List BudgetChange

unfoldable pub move : TuneOptions → Text → TargetLog → Tuning → Tuning
unfolding want_of
move o t d s =
    let have = or_else (lookup t s.cur) d.budget in
    let want = want_of o d.new_units have in
    if want == have then s else record {
      cur = put t want s.cur;
      changed =
          s.changed ++ record { target = t; was = have; want = want; found = d.new_units } ∷ [];
    }

unfoldable pub tune_one : TuneOptions → Text → Option TargetLog → Tuning → Tuning
tune_one o t none s = s
tune_one o t (some d) s =
    let moved = move o t d s in if (d.budget == 0) || locked d then s else moved

unfoldable pub tune_all : Map TargetLog → TuneOptions → List Text → Tuning → Tuning
tune_all per o [] s = s
tune_all per o (t ∷ ts) s = tune_all per o ts (tune_one o t (lookup t per) s)

-- `Tune`.
unfoldable pub tune : Map TargetLog → Map ℕ → TuneOptions → Tuning
tune per cur o = tune_all per o (sort_by less (keys per)) (record { cur = cur; changed = [] })
