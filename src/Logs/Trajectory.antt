-- ===== src/Logs/Trajectory.antt =====
-- go/internal/logs/trajectory.go: `Summarise`, what a run's progress lines say of its coverage.
pub mod Order
pub mod Gains
use pg_fuzz.Base.{
  ℕ, ◌+◌, ◌-◌, ◌*◌, ◌<◌, max, Bool, true, false, List, [], ◌∷◌, Option, none, some, ltb,
  if◌then◌else◌,
}
use pg_fuzz.Float.{Float}

pub record Point : Type 0 where
  pub execs : ℕ
  pub cov : ℕ
  pub ft : ℕ
  pub corpus : ℕ

-- `sortPoints`: one insertion, into the sorted part held from its last point down.
unfoldable pub insert_down : Point → List Point → List Point
insert_down p [] = p ∷ []
insert_down p (q ∷ qs) = if ltb p.execs q.execs then q ∷ insert_down p qs else p ∷ q ∷ qs

unfoldable pub sort_down : List Point → List Point → List Point
sort_down done [] = done
sort_down done (p ∷ ps) = sort_down (insert_down p done) ps

unfoldable pub turn : List Point → List Point → List Point
turn [] onto = onto
turn (p ∷ ps) onto = turn ps (p ∷ onto)

-- The points by their execution count.
unfoldable pub sort_points : List Point → List Point
sort_points ps = turn (sort_down [] ps) []

-- The variables of the loop. `best` starts below every count, as the source's -1.
pub record Walk : Type 0 where
  pub cov : ℕ
  pub ft : ℕ
  pub last_exec_seen : ℕ
  pub best : Option ℕ
  pub last_new_edge_at : ℕ

abbrev pub beats : ℕ → Option ℕ → Bool
beats cov none = true
beats cov (some b) = ltb b cov

unfoldable pub walk_one : Walk → Point → Walk
walk_one w p = record {
  cov = max w.cov p.cov;
  ft = max w.ft p.ft;
  last_exec_seen = max w.last_exec_seen p.execs;
  best = if beats p.cov w.best then some p.cov else w.best;
  last_new_edge_at = if beats p.cov w.best then p.execs else w.last_new_edge_at;
}

unfoldable pub walk : Walk → List Point → Walk
walk w [] = w
walk w (p ∷ ps) = walk (walk_one w p) ps

abbrev last_corpus : ℕ → List Point → ℕ
last_corpus c [] = c
last_corpus c (p ∷ ps) = last_corpus p.corpus ps

module _ (f : Float) where
  open f use {F, of_nat, mul, div, round}

  pub record Trajectory : Type 0 where
    pub cov : ℕ
    pub ft : ℕ
    pub cov_start : ℕ
    pub ft_start : ℕ
    pub cov_gained_in_run : ℕ
    pub ft_gained_in_run : ℕ
    pub corpus_end : ℕ
    pub last_new_edge_at : ℕ
    pub last_exec_seen : ℕ
    pub saturated_pct : Option F

  -- The share of the run behind the last new edge, in tenths of a percent.
  abbrev saturation : ℕ → ℕ → Option F
  saturation last edge =
      if ltb 0 last
      then some (
          div
            (round (mul (div (mul (of_nat 100) (of_nat (last - edge))) (of_nat last)) (of_nat 10)))
            (of_nat 10))
      else none

  abbrev pub start : Walk
  start = record { cov = 0; ft = 0; last_exec_seen = 0; best = none; last_new_edge_at = 0 }

  -- What is read off the sorted points; `Trajectory{}` where there are none.
  unfoldable pub summary : List Point → Trajectory
  summary [] = record {
    cov = 0;
    ft = 0;
    cov_start = 0;
    ft_start = 0;
    cov_gained_in_run = 0;
    ft_gained_in_run = 0;
    corpus_end = 0;
    last_new_edge_at = 0;
    last_exec_seen = 0;
    saturated_pct = none;
  }
  summary (p ∷ ps) =
      let w = walk start (p ∷ ps) in
      record {
        cov = w.cov;
        ft = w.ft;
        cov_start = p.cov;
        ft_start = p.ft;
        cov_gained_in_run = w.cov - p.cov;
        ft_gained_in_run = w.ft - p.ft;
        corpus_end = last_corpus p.corpus ps;
        last_new_edge_at = w.last_new_edge_at;
        last_exec_seen = w.last_exec_seen;
        saturated_pct = saturation w.last_exec_seen w.last_new_edge_at;
      }

  -- `Summarise`.
  unfoldable pub summarise : List Point → Trajectory
  summarise ps = summary (sort_points ps)
