-- ===== src/Ratchet/Variance.antt =====
-- go/internal/ratchet/analysis.go: `Variance`, how much a target moves between rounds, as the swings
-- that it ranks. Go ranges over a map in any order; here it is that of the association list.
use pg_fuzz.Base.{
  ℕ, ◌-◌, ◌^◌, Bool, true, not, ◌&&◌, ◌||◌, List, [], ◌∷◌, ◌++◌, Option, Text, Map, eq, holds,
  is_empty, is_some, keep, keys, length, less, lookup, lookup_or, sort_by, leb, ltb, get_elem?,
  if◌then◌else◌,
}
use pg_fuzz.Float.{Float}

pub record SeriesRow : Type 0 where
  pub ws : Text
  pub round : Option ℕ
  pub log_mtime : Text
  pub execs : Map ℕ

abbrev pub max_int : ℕ
max_int = 2 ^ 63 - 1

abbrev pub rows_of : Text → List SeriesRow → List SeriesRow
rows_of ws rs = keep (λ (r : SeriesRow). eq r.ws ws) rs

-- The workspaces, each once.
abbrev pub row_names : Text → List SeriesRow → List Text
row_names only [] = []
row_names only (r ∷ rs) =
    let rest = row_names only rs in
    if (is_empty only || eq r.ws only) && not (holds r.ws rest) then r.ws ∷ rest else rest

abbrev pub recorded_twice : List SeriesRow → Text → Bool
recorded_twice rs ws = leb 2 (length (rows_of ws rs))

abbrev pub in_every : Text → List SeriesRow → Bool
in_every t [] = true
in_every t (r ∷ rs) = is_some (lookup t r.execs) && in_every t rs

-- The targets of the first row that every other row has.
abbrev pub common : List SeriesRow → List Text
common [] = []
common (r ∷ rs) = keep (λ t. in_every t rs) (keys r.execs)

unfoldable pub lowest : Text → List SeriesRow → ℕ → ℕ
lowest t [] lo = lo
lowest t (r ∷ rs) lo =
    lowest t rs (if ltb (lookup_or 0 t r.execs) lo then lookup_or 0 t r.execs else lo)

unfoldable pub highest : Text → List SeriesRow → ℕ → ℕ
highest t [] hi = hi
highest t (r ∷ rs) hi =
    highest t rs (if ltb hi (lookup_or 0 t r.execs) then lookup_or 0 t r.execs else hi)

module _ (f : Float) where
  open f use {F, of_nat, div, mul, to_nat, lt}

  pub record Swing : Type 0 where
    pub ratio : F
    pub ws : Text
    pub target : Text
    pub lo : ℕ
    pub hi : ℕ

  abbrev pub swing : Text → Text → ℕ → ℕ → Swing
  swing ws t lo hi = record {
    ratio = div (of_nat lo) (of_nat hi);
    ws = ws;
    target = t;
    lo = lo;
    hi = hi;
  }

  abbrev pub swings_in : Text → List SeriesRow → List Text → List Swing
  swings_in ws rs [] = []
  swings_in ws rs (t ∷ ts) =
      let rest = swings_in ws rs ts in
      if ltb 0 (highest t rs 0)
      then swing ws t (lowest t rs max_int) (highest t rs 0) ∷ rest
      else rest

  abbrev pub swings_over : List SeriesRow → List Text → List Swing
  swings_over rs [] = []
  swings_over rs (ws ∷ wss) =
      swings_in ws (rows_of ws rs) (common (rows_of ws rs)) ++ swings_over rs wss

  abbrev pub narrower : Swing → Swing → Bool
  narrower a b = lt a.ratio b.ratio

  pub data Spread : Type 0 where
    too_few_rounds no_common_target : Spread
    ranked : List Swing → Spread

  abbrev pub spread_of : List Text → List Swing → Spread
  spread_of [] xs = too_few_rounds
  spread_of (ws ∷ wss) [] = no_common_target
  spread_of (ws ∷ wss) (x ∷ xs) = ranked (sort_by narrower (x ∷ xs))

  -- `Variance`.
  unfoldable pub variance : List SeriesRow → Text → Spread
  variance rs only =
      let wss = sort_by less (keep (recorded_twice rs) (row_names only rs)) in
      spread_of wss (swings_over rs wss)

  -- The index of a percentile, and the swing there.
  unfoldable pub percentile_index : F → ℕ → ℕ
  percentile_index p n = let i = to_nat (mul (of_nat n) p) in if ltb (n - 1) i then n - 1 else i

  unfoldable pub percentile : F → List Swing → Option Swing
  percentile p xs = get_elem? xs (percentile_index p (length xs))
