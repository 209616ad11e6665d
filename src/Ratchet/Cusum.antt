-- ===== src/Ratchet/Cusum.antt =====
-- go/internal/ratchet/analysis.go: `Cusum`, which finds a shift down that stays, as the shifts that it
-- prints and its result. The operations of float64 and of package math that only this file uses are
-- a parameter.
use pg_fuzz.Base.{
  ℕ, suc, ◌+◌, ◌-◌, ◌/◌, ◌%◌, Bool, List, [], ◌∷◌, ◌++◌, Option, none, some, Text, holds, keys,
  length, drop, take, less, lookup, map, sort_by, get_elem?, ltb, ◌==◌, if◌then◌else◌, or_else,
}
use pg_fuzz.Float.{Float}
use pg_fuzz.Ratchet.Variance.{SeriesRow, rows_of}

pub record Chart (f : Float) : Type 0 where
  pub plus : f.F → f.F → f.F
  pub minus : f.F → f.F → f.F
  pub negated : f.F → f.F
  pub larger_of : f.F → f.F → f.F
  pub abs : f.F → f.F
  pub log : f.F → f.F

module _ (f : Float) (c : Chart f) where
  open f use {F, of_nat, mul, div, lt, le}
  open c use {plus, minus, negated, larger_of, abs, log}

  pub record CusumOptions : Type 0 where
    pub k : F
    pub h : F
    pub clip : F
    pub min_rounds : ℕ

  -- `DefaultCusum`.
  unfoldable pub default_cusum : CusumOptions
  default_cusum = record {
    k = div (of_nat 1) (of_nat 2);
    h = of_nat 4;
    clip = of_nat 3;
    min_rounds = 8;
  }

  abbrev at_index : List F → ℕ → F
  at_index xs i = or_else (get_elem? xs i) (of_nat 0)

  unfoldable pub median : List F → F
  median xs =
      let s = sort_by lt xs in
      let m = length s / 2 in
      if length xs == 0
      then of_nat 0
      else if length s % 2 == 1
      then at_index s m
      else div (plus (at_index s (m - 1)) (at_index s m)) (of_nat 2)

  unfoldable pub mad : List F → F → F
  mad xs med = mul (div (of_nat 14826) (of_nat 10000)) (median (map (λ x. abs (minus x med)) xs))

  -- The level after one more round.
  unfoldable pub next_level : CusumOptions → F → F → F → F → F
  next_level o med sd level x =
      let z = larger_of (div (minus x med) sd) (negated o.clip) in
      larger_of (of_nat 0) (minus (minus level z) o.k)

  abbrev pub tripped : Bool → ℕ → Option ℕ → Option ℕ
  tripped above i (some j) = some j
  tripped above i none = if above then some i else none

  -- The loop over the rounds that are judged: the level and where it was first too high.
  unfoldable pub chart_rounds : CusumOptions → F → F → List F → ℕ → F → Option ℕ → F × Option ℕ
  chart_rounds o med sd [] i level trip = (level, trip)
  chart_rounds o med sd (x ∷ xs) i level trip =
      let level' = next_level o med sd level x in
      chart_rounds o med sd xs (suc i) level' (tripped (lt o.h level') i trip)

  abbrev scale_of : F → F
  scale_of sd = if le sd (of_nat 0) then div (of_nat 1) (of_nat 10) else sd

  -- One target's counts: where it shifted, if it did.
  unfoldable pub chart_target : CusumOptions → List ℕ → Option ℕ
  chart_target o xs =
      let lg = map (λ (x : ℕ). log (larger_of (of_nat x) (of_nat 1))) xs in
      let train = take o.min_rounds lg in
      let med = median train in
      if ltb (length xs) (o.min_rounds + 1)
      then none
      else (chart_rounds o med (scale_of (mad train med)) (drop o.min_rounds lg) o.min_rounds
          (of_nat 0) none).1

abbrev pub counts_of : Text → List SeriesRow → List ℕ
counts_of t [] = []
counts_of t (r ∷ rs) =
    let rest = counts_of t rs in elim (lookup t r.execs) [ none ↦ rest | some v ↦ v ∷ rest ]

abbrev add_keys_of : List Text → List Text → List Text
add_keys_of [] ts = ts
add_keys_of (k ∷ ks) ts = add_keys_of ks (if holds k ts then ts else ts ++ k ∷ [])

abbrev targets_in : List SeriesRow → List Text → List Text
targets_in [] ts = ts
targets_in (r ∷ rs) ts = targets_in rs (add_keys_of (keys r.execs) ts)

abbrev workspaces_in : List SeriesRow → List Text → List Text
workspaces_in [] wss = wss
workspaces_in (r ∷ rs) wss = workspaces_in rs (add_keys_of (r.ws ∷ []) wss)

module _ (f : Float) (c : Chart f) where
  abbrev pub shifts_of : CusumOptions f c → List SeriesRow → List Text → List (Text × ℕ)
  shifts_of o rs [] = []
  shifts_of o rs (t ∷ ts) =
      let rest = shifts_of o rs ts in
      elim (chart_target f c o (counts_of t rs)) [ none ↦ rest | some i ↦ (t, i) ∷ rest ]

  -- One workspace: none where the history is too short.
  unfoldable pub cusum_one : CusumOptions f c → List SeriesRow → Option (List (Text × ℕ))
  cusum_one o rs =
      if ltb (length rs) (o.min_rounds + 1)
      then none
      else some (shifts_of o rs (sort_by less (targets_in rs [])))

  abbrev pub count_shifts : Option (List (Text × ℕ)) → ℕ
  count_shifts none = 0
  count_shifts (some xs) = length xs

  abbrev pub bad_in : CusumOptions f c → List SeriesRow → List Text → ℕ
  bad_in o rows [] = 0
  bad_in o rows (ws ∷ wss) = count_shifts (cusum_one o (rows_of ws rows)) + bad_in o rows wss

  abbrev pub named_or_all : List Text → List SeriesRow → List Text
  named_or_all [] rows = sort_by less (workspaces_in rows [])
  named_or_all (ws ∷ wss) rows = ws ∷ wss

  abbrev pub cusum_result : List Text → ℕ → ℕ
  cusum_result [] bad = 2
  cusum_result (ws ∷ wss) bad = if ltb 0 bad then 1 else 0

  -- `Cusum`.
  unfoldable pub cusum : CusumOptions f c → List SeriesRow → List Text → ℕ
  cusum o rows named = let wss = named_or_all named rows in cusum_result wss (bad_in o rows wss)
