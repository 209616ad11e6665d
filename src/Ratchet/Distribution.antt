-- ===== src/Ratchet/Distribution.antt =====
-- go/internal/ratchet/analysis.go: `Distribution`, where the observations sit relative to their floors,
-- as the figures that it prints. The last edge is infinity, above every ratio.
use pg_fuzz.Base.{
  ℕ, suc, ◌+◌, Bool, true, false, not, ◌&&◌, List, [], ◌∷◌, ◌++◌, Option, none, some, Text, Map,
  codes, is_some, keep, length, lookup, lookup_or, sort_by, ltb, if◌then◌else◌,
}
use pg_fuzz.Float.{Float}
use pg_fuzz.Ratchet.Show.{since_ok}
use pg_fuzz.Ratchet.Variance.{SeriesRow}

module _ (f : Float) where
  open f use {F, of_nat, div, lt, le}

  pub record Ratio : Type 0 where
    pub ratio : F
    pub ws : Text
    pub target : Text
    pub value : ℕ
    pub floor : ℕ

  -- A bucket: its label, its lower edge and its upper, which is none for infinity.
  pub record Bucket : Type 0 where
    pub label : Text
    pub lower : F
    pub upper : Option F

  abbrev hundredth : ℕ → F
  hundredth n = div (of_nat n) (of_nat 100)

  abbrev bucket : Text → ℕ → ℕ → Bucket
  bucket label a b = record { label = label; lower = hundredth a; upper = some (hundredth b) }

  -- `distEdges` and `distLabels`.
  unfoldable pub buckets : List Bucket
  buckets =
      bucket (codes "<1%") 0 1
      ∷ bucket (codes "1-5%") 1 5
      ∷ bucket (codes "5-10%") 5 10
      ∷ bucket (codes "10-25%") 10 25
      ∷ bucket (codes "25-50%") 25 50
      ∷ bucket (codes "50-75%") 50 75
      ∷ bucket (codes "75-90%") 75 90
      ∷ bucket (codes "90-100%") 90 100
      ∷ record { label = codes ">=100%"; lower = of_nat 1; upper = none }
      ∷ []

  abbrev below_upper : F → Option F → Bool
  below_upper r none = true
  below_upper r (some u) = lt r u

  abbrev pub in_bucket : F → Bucket → Bool
  in_bucket r b = le b.lower r && below_upper r b.upper

  -- The observations of one row that have a floor.
  abbrev ratios_in : Text → Map ℕ → Map ℕ → List Ratio
  ratios_in ws floors [] = []
  ratios_in ws floors ((t, v) ∷ execs) =
      let rest = ratios_in ws floors execs in
      let fl = lookup_or 0 t floors in
      if ltb 0 fl
      then record { ratio = div (of_nat v) (of_nat fl); ws = ws; target = t; value = v; floor = fl }
        ∷ rest
      else rest

  abbrev ratios_of : Map (Map ℕ) → List SeriesRow → List Ratio
  ratios_of floors [] = []
  ratios_of floors (r ∷ rs) =
      ratios_in r.ws (lookup_or [] r.ws floors) r.execs ++ ratios_of floors rs

  -- One ratio is counted in the first bucket that holds it.
  abbrev pub count_ratio : F → List Bucket → List ℕ → List ℕ
  count_ratio r (b ∷ bs) (n ∷ ns) =
      let rest = count_ratio r bs ns in if in_bucket r b then suc n ∷ ns else n ∷ rest
  count_ratio r bs ns = ns

  abbrev pub count_ratios : List Ratio → List ℕ → List ℕ
  count_ratios [] ns = ns
  count_ratios (r ∷ rs) ns = count_ratios rs (count_ratio r.ratio buckets ns)

  abbrev zeros : List Bucket → List ℕ
  zeros [] = []
  zeros (b ∷ bs) = 0 ∷ zeros bs

  -- Whether the bucket fails the gate.
  abbrev fails_at : F → Option F → Bool
  fails_at tol none = false
  fails_at tol (some u) = le u tol

  abbrev sum_below : F → List Bucket → List ℕ → ℕ
  sum_below tol (b ∷ bs) (n ∷ ns) = (if fails_at tol b.upper then n else 0) + sum_below tol bs ns
  sum_below tol bs ns = 0

  -- The first bucket at or above the line, and the first of all where there is none.
  abbrev above_from : ℕ → F → List Bucket → ℕ
  above_from i tol [] = 0
  above_from i tol (b ∷ bs) =
      let rest = above_from (suc i) tol bs in if le tol b.lower then i else rest

  abbrev smaller_ratio : Ratio → Ratio → Bool
  smaller_ratio a b = lt a.ratio b.ratio

  pub record Placement : Type 0 where
    pub rounds : ℕ
    pub observed : ℕ
    pub counts : List ℕ
    pub below : ℕ
    pub band : ℕ
    pub known : List Ratio
    pub unknown : List Ratio

  pub data Distributed : Type 0 where
    no_observations no_floors : Distributed
    distributed : Placement → Distributed

  abbrev pub below_line : F → List Ratio → List Ratio
  below_line tol rs = sort_by smaller_ratio (keep (λ (r : Ratio). lt r.ratio tol) rs)

  abbrev pub is_known : Map Text → Ratio → Bool
  is_known acks r = is_some (lookup r.target acks)

  abbrev pub spread_by : F → Map Text → ℕ → List Ratio → Placement
  spread_by tol acks n rs = record {
    rounds = n;
    observed = length rs;
    counts = count_ratios rs (zeros buckets);
    below = sum_below tol buckets (count_ratios rs (zeros buckets));
    band = above_from 0 tol buckets;
    known = keep (is_known acks) (below_line tol rs);
    unknown = keep (λ (r : Ratio). not (is_known acks r)) (below_line tol rs);
  }

  abbrev pub by_rows : F → Map (Map ℕ) → Map Text → List SeriesRow → Distributed
  by_rows tol floors acks [] = no_observations
  by_rows tol floors acks (r ∷ rs) = elim (ratios_of floors (r ∷ rs)) [
    | [] ↦ no_floors
    | x ∷ xs ↦ distributed (spread_by tol acks (length (r ∷ rs)) (x ∷ xs))
  ]

  -- `Distribution`, at the tolerance of the baseline.
  unfoldable pub distribution : F → Map (Map ℕ) → Map Text → List SeriesRow → Text → Distributed
  distribution tol floors acks all since =
      by_rows tol floors acks (keep (λ (r : SeriesRow). since_ok r.log_mtime since) all)
