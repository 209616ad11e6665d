-- ===== src/Ratchet/HistoryExamples.antt =====
-- The analyses of the history at concrete inputs.
use pg_fuzz.Base.{
  holds, ℕ, Map, eq, atoi, decimal, split_on, trim_space, has_prefix, lookup, ◌+◌, ◌-◌, ◌↔◌, ◌++◌,
  ◌⊎◌, arith, ◌≡◌, refl, true, List, [], ◌∷◌, none, some, Text, codes, max, All,
}
use pg_fuzz.Float.Hundredths.{hundredths}
use pg_fuzz.Float.Signed.{by_distance, signed}
use pg_fuzz.Ratchet.Reseed.{ReseedChange, Seeds, reseeded, reseed, reseed_all, reseed_one}
use pg_fuzz.Ratchet.Moved.{floor_at, new_floor}
use pg_fuzz.Ratchet.Reasons.{IsListed, Recorded, floor_at-reseed}
use pg_fuzz.Ratchet.Show.{
  comma_int, by_count_desc, since_ok, cut_16, span, since_note, ack_line, load_acks, show,
}
use pg_fuzz.Ratchet.Commas.{uncomma, IsGrouped, atoi-comma_int}
use pg_fuzz.Ratchet.Variance.{SeriesRow, lowest, highest, Swing, ranked, variance}
use pg_fuzz.Ratchet.Swings.{IsSwing, variance-IsSwing}
use pg_fuzz.Ratchet.Cusum.{
  Chart, next_level, CusumOptions, default_cusum, median, chart_rounds, cusum, cusum_one,
}
use pg_fuzz.Ratchet.Tripped.{IsFirstAbove, chart_rounds_iff}

abbrev seeds : Seeds
seeds = record {
  floors =
      (codes "pg17", (codes "protocol", 21171256) ∷ [])
      ∷ (codes "pg16", (codes "regex", 7) ∷ [])
      ∷ [];
  reseeds = [];
}

abbrev dirs : Map Text
dirs = (codes "pg17", codes "/w/pg17") ∷ []

reseed_test :
    reseed (codes "protocol") (codes "2026-08") (codes "was broken") dirs (λ d t s. 6900000) seeds
    ≡ reseeded
        (record {
          floors =
              (codes "pg17", (codes "protocol", 6900000) ∷ [])
              ∷ (codes "pg16", (codes "regex", 7) ∷ [])
              ∷ [];
          reseeds =
              record {
                target = codes "protocol";
                since = codes "2026-08";
                reason = codes "was broken";
                changed = record { workspace = codes "pg17"; from = 21171256; to = 6900000 } ∷ [];
              }
              ∷ [];
        })
        (record { workspace = codes "pg17"; from = 21171256; to = 6900000 } ∷ [])
unfolding reseed reseed_all reseed_one
reseed_test = refl

floor_at-reseed_example :
    (s' : Seeds) × (changed : List ReseedChange) × (reseed
        (codes "protocol")
        (codes "2026-08")
        (codes "was broken")
        dirs
        (λ d t s. 6900000)
        seeds
      ≡ reseeded s' changed)
    × ((ws t : Text)
        → floor_at ws t s'.floors
          ≡ new_floor
              (eq (codes "protocol") t)
              (lookup ws dirs)
              (λ dir. 6900000)
              (floor_at ws t seeds.floors))
    × ((ws : Text)
        → (floor_at ws (codes "protocol") s'.floors ≡ floor_at ws (codes "protocol") seeds.floors)
          ⊎ IsListed ws
              (floor_at ws (codes "protocol") seeds.floors)
              (floor_at ws (codes "protocol") s'.floors)
              changed)
    × Recorded
        (codes "protocol")
        (codes "2026-08")
        (codes "was broken")
        changed
        seeds.reseeds
        s'.reseeds
floor_at-reseed_example =
    floor_at-reseed (codes "protocol") (codes "2026-08") (codes "was broken") dirs
      (λ d t s. 6900000) seeds refl

comma_test : comma_int 21171256 ≡ codes "21,171,256"
unfolding comma_int decimal
comma_test = refl

atoi-comma_int_example :
    (atoi (uncomma (comma_int 21171256)) ≡ some 21171256)
    × IsGrouped (split_on b',' (comma_int 21171256))
atoi-comma_int_example = atoi-comma_int 21171256 (omega arith)

span_test :
    span (codes "2026-08-22T23:55:01" ∷ [] ∷ codes "2026-08-21" ∷ [])
    ≡ (codes "2026-08-21", codes "2026-08-22T23:55")
unfolding span cut_16
span_test = refl

load_acks_test :
    load_acks (some (codes "# known" ++ (b'\n' ∷ (codes "regex" ++ (b'\t' ∷ codes "why")))))
    ≡ ((codes "regex", codes "regex" ++ (b'\t' ∷ codes "why")) ∷ [], true)
unfolding load_acks ack_line split_on trim_space has_prefix
load_acks_test = refl

show_test :
    show [] seeds.floors
    ≡ (codes "pg16", codes "regex" ∷ []) ∷ (codes "pg17", codes "protocol" ∷ []) ∷ []
unfolding show by_count_desc
show_test = refl

since_test : since_ok (codes "2026-08-22T23:55") (codes "2026-08-22") ≡ true
unfolding since_ok
since_test = refl

since_note_test : since_note [] ≡ []
unfolding since_note
since_note_test = refl

abbrev series_row : Text → ℕ → SeriesRow
series_row ws execs = record {
  ws = ws;
  round = none;
  log_mtime = [];
  execs = (codes "regex", execs) ∷ [];
}

abbrev series : List SeriesRow
series =
    series_row (codes "pg17") 400 ∷ series_row (codes "pg16") 5 ∷ series_row (codes "pg17") 100 ∷ []

abbrev one_swing : Swing hundredths
one_swing = record { ratio = 25; ws = codes "pg17"; target = codes "regex"; lo = 100; hi = 400 }

variance_test : variance hundredths series [] ≡ ranked (one_swing ∷ [])
unfolding variance lowest highest holds
variance_test = refl

variance-IsSwing_example : All (IsSwing hundredths series) (one_swing ∷ [])
variance-IsSwing_example = variance-IsSwing hundredths series [] (one_swing ∷ []) variance_test

-- Signed hundredths, without a logarithm.
abbrev chart : Chart signed
chart = record {
  plus = λ a b. a + b - 100000;
  minus = λ a b. a + 100000 - b;
  negated = λ a. 200000 - a;
  larger_of = λ a b. max a b;
  abs = λ a. by_distance (λ d. d) (max a (200000 - a));
  log = λ a. a;
}

abbrev options : CusumOptions signed chart
options = record { k = 100050; h = 100400; clip = 100300; min_rounds = 1 }

median_test : median signed chart (100300 ∷ 100100 ∷ 100200 ∷ []) ≡ 100200
unfolding median
median_test = refl

-- Five deviations below the median are clipped to three, so the level is 2.5 after the first round of
-- them and 5 after the second, which is above 4; the round before them is at the median.
abbrev falling : List ℕ
falling = 101000 ∷ 100500 ∷ 100500 ∷ 101000 ∷ []

falling_test : (chart_rounds signed chart options 101000 100100 falling 1 100000 none).1 ≡ some 3
unfolding chart_rounds next_level
falling_test = refl

chart_rounds_iff_example :
    ((chart_rounds signed chart options 101000 100100 falling 1 100000 none).1 ≡ some 3)
    ↔ IsFirstAbove signed chart options 101000 100100 falling 1 100000 3
chart_rounds_iff_example = chart_rounds_iff signed chart options 101000 100100 falling 1 3 100000

cusum_empty_test : cusum signed chart (default_cusum signed chart) [] [] ≡ 2
unfolding cusum
cusum_empty_test = refl

cusum_short_test : cusum signed chart (default_cusum signed chart) series [] ≡ 0
unfolding cusum cusum_one default_cusum holds
cusum_short_test = refl
