-- ===== src/Ratchet/Examples.antt =====
-- The ratchet on a small baseline: one target with a floor of four jobs, one with a rate floor.
use pg_fuzz.Base.{
  ℕ, ◌≡◌, ◌≢◌, refl, inl, inr, true, false, List, [], ◌∷◌, some, Text, codes, Any, All, lookup,
  lookup_or,
}
use pg_fuzz.Float.Hundredths.{hundredths}
use pg_fuzz.Ratchet.Check.{check, check_one, record_of, verdict}
use pg_fuzz.Ratchet.Defs.{Baseline, Observation, failed, incomparable, no_floor, tol}
use pg_fuzz.Ratchet.Floors.{AtLeast}
use pg_fuzz.Ratchet.Judged.{IsRegression, failed_iff}
use pg_fuzz.Ratchet.Raises.{
  floor_of, archived_under, updated, update-raises, update-archives, update-update,
}
use pg_fuzz.Ratchet.Rates.{RateAtLeast, update-keeps_rate, update-check_one}
use pg_fuzz.Ratchet.Update.{
  update, shift, shift_all, shift_one, settle_all, settle_one, rate_all, rate_one, regime_key,
}

abbrev baseline : Baseline hundredths
baseline = record {
  tolerance = 10;
  floors = (codes "pg17", (codes "numeric", 1000) ∷ (codes "regex", 200) ∷ []) ∷ [];
  regimes = (codes "pg17", (codes "numeric", codes "jobs=4") ∷ []) ∷ [];
  rate_floors = (codes "pg17", (codes "regex", 5000) ∷ []) ∷ [];
  archive = [];
}

abbrev observed : Text → ℕ → ℕ → Text → Observation hundredths
observed target execs rate regime = record {
  target = target;
  execs = execs;
  rate = rate;
  new_units = 0;
  regime = regime;
}

abbrev slow_round : List (Observation hundredths)
slow_round = observed (codes "numeric") 90 0 (codes "jobs=4") ∷ []

abbrev one_job : List (Observation hundredths)
one_job = observed (codes "numeric") 90 0 (codes "jobs=1") ∷ []

abbrev good_round : List (Observation hundredths)
good_round = observed (codes "numeric") 1500 0 (codes "jobs=4") ∷ []

-- Ninety executions are below a tenth of a thousand, and at one job they are not comparable.
slow_round_fails : failed hundredths (check hundredths baseline (codes "pg17") slow_round []) ≡ true
unfolding check check_one verdict tol
slow_round_fails = refl

one_job_passes : failed hundredths (check hundredths baseline (codes "pg17") one_job []) ≡ false
unfolding check check_one verdict tol
one_job_passes = refl

acknowledged_passes :
    failed hundredths
      (check hundredths baseline (codes "pg17") slow_round ((codes "numeric", codes "why") ∷ []))
    ≡ false
unfolding check check_one verdict tol
acknowledged_passes = refl

good_round_raises :
    lookup
      (codes "numeric")
      (lookup_or [] (codes "pg17") (updated hundredths baseline (codes "pg17") good_round).floors)
    ≡ some 1500
unfolding update shift shift_all shift_one settle_all settle_one rate_all rate_one regime_key
good_round_raises = refl

failed_iff_example :
    (lookup_or [] (codes "pg17") baseline.floors ≢ [])
    × Any (IsRegression hundredths (record_of hundredths baseline (codes "pg17") [])) slow_round
failed_iff_example =
    (failed_iff hundredths baseline (codes "pg17") slow_round []).0 slow_round_fails

update-raises_example :
    AtLeast 1000 (
      floor_of hundredths
        (updated hundredths baseline (codes "pg17") good_round)
        (codes "pg17")
        (codes "numeric"))
    × All
        (λ o. AtLeast o.execs (
          floor_of hundredths
            (updated hundredths baseline (codes "pg17") good_round)
            (codes "pg17")
            o.target))
        good_round
unfolding regime_key
update-raises_example =
    update-raises hundredths baseline (codes "pg17") (codes "numeric") good_round 1000
      (refl, (refl, tt)) refl (inr refl)

update-archives_example :
    archived_under hundredths
      (codes "jobs=4")
      (updated hundredths baseline (codes "pg17") one_job)
      (codes "pg17")
      (codes "numeric")
    ≡ some 1000
unfolding regime_key
update-archives_example =
    update-archives hundredths baseline (codes "pg17") (codes "numeric") one_job 1000
      (refl, (refl, tt)) refl refl refl

update-update_example : AtLeast 1000 (
    floor_of hundredths
      (updated hundredths
        (updated hundredths baseline (codes "pg17") one_job)
        (codes "pg17")
        slow_round)
      (codes "pg17")
      (codes "numeric"))
unfolding regime_key
update-update_example =
    update-update hundredths baseline (codes "pg17") (codes "numeric") one_job slow_round 1000
      (refl, (refl, tt)) refl refl refl refl (inl refl)

update-keeps_rate_example : RateAtLeast hundredths 5000 (
    lookup (codes "regex") (
      lookup_or []
        (codes "pg17")
        (updated hundredths baseline (codes "pg17") good_round).rate_floors))
update-keeps_rate_example =
    update-keeps_rate hundredths baseline (codes "pg17") (codes "regex") good_round 5000 refl

update-check_one_example :
    ((check_one hundredths
        (record_of hundredths
          (updated hundredths baseline (codes "pg17") one_job)
          (codes "pg17")
          [])
        (observed (codes "numeric") 80 0 (codes "jobs=1"))).outcome
      ≢ incomparable)
    × ((check_one hundredths
          (record_of hundredths
            (updated hundredths baseline (codes "pg17") one_job)
            (codes "pg17")
            [])
          (observed (codes "numeric") 80 0 (codes "jobs=1"))).outcome
        ≢ no_floor)
unfolding regime_key
update-check_one_example =
    update-check_one hundredths baseline (codes "pg17") one_job []
      (observed (codes "numeric") 80 0 (codes "jobs=1")) refl (inl refl) refl
