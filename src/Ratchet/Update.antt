-- ===== src/Ratchet/Update.antt =====
-- go/internal/ratchet/ratchet.go: `Update`, which raises the floors that a round has beaten.
-- A Go map is walked in the order of its association list; `Switched` and `Changes` are sorted
-- afterwards, as in the source. A floor of Go's int is a natural number here, since executions are
-- counted.
use pg_fuzz.Base.{
  ℕ, ◌+◌, Bool, not, ◌&&◌, List, [], ◌∷◌, ◌++◌, Option, none, some, Text, Map, codes, lookup,
  lookup_or, put, delete, is_empty, eq, less, sort_by, ltb, if◌then◌else◌,
}
use pg_fuzz.Float.{Float}
use pg_fuzz.Ratchet.Defs.{Baseline, Observation, Change, Switch, UpdateResult}

-- `arch[t][regime] = v`, which makes the inner map where there is none.
unfoldable pub archive_floor : Text → Text → ℕ → Map (Map ℕ) → Map (Map ℕ)
archive_floor t regime v arch = put t (put regime v (lookup_or [] t arch)) arch

-- The maps that the regime bookkeeping changes.
pub record Shift : Type 0 where
  pub floors : Map ℕ
  pub regimes : Map Text
  pub archive : Map (Map ℕ)
  pub switched : List Switch

-- `prev != "" && prev != rkey`.
abbrev pub stale : Text → Text → Bool
stale rkey prev = not (is_empty prev) && not (eq prev rkey)

-- One round of the loop over the floors: a floor of another regime is archived.
unfoldable pub shift_one : Text → Text → ℕ → Shift → Shift
unfolding archive_floor
shift_one rkey t v s =
    let prev = lookup_or [] t s.regimes in
    if stale rkey prev
    then record {
      floors = delete t s.floors;
      regimes = delete t s.regimes;
      archive = archive_floor t prev v s.archive;
      switched = s.switched ++ record { target = t; from = prev; value = v } ∷ [];
    }
    else s

unfoldable pub shift_all : Text → Map ℕ → Shift → Shift
shift_all rkey [] s = s
shift_all rkey ((t, v) ∷ rest) s = shift_all rkey rest (shift_one rkey t v s)

-- With no regime in any observation the bookkeeping is skipped.
unfoldable pub shift : Text → Shift → Shift
shift rkey s = if is_empty rkey then s else shift_all rkey s.floors s

-- The maps and counters of the last loop.
pub record Ledger : Type 0 where
  pub floors : Map ℕ
  pub regimes : Map Text
  pub added : ℕ
  pub raised : ℕ
  pub changes : List Change

abbrev pub opened : Shift → Ledger
opened s = record { floors = s.floors; regimes = s.regimes; added = 0; raised = 0; changes = [] }

-- The floors after a floor archived under this regime is restored.
unfoldable pub restore : Text → Text → Map (Map ℕ) → Map ℕ → Map ℕ
restore rkey t arch floors = elim (lookup t floors) [
  | some old ↦ floors
  | none ↦ elim (lookup rkey (lookup_or [] t arch)) [
    | some prev ↦ put t prev floors
    | none ↦ floors
  ]
]

-- The switch at the end of the last loop, on the record to beat.
unfoldable pub settle : Text → ℕ → Option ℕ → Ledger → Ledger
settle t execs none l = record l {
  floors = put t execs l.floors;
  added = l.added + 1;
  changes = l.changes ++ record { target = t; kind = codes "record"; from = none; to = execs } ∷ [];
}
settle t execs (some old) l =
    if ltb old execs
    then record l {
      floors = put t execs l.floors;
      raised = l.raised + 1;
      changes =
          l.changes
          ++ record { target = t; kind = codes "raise"; from = some old; to = execs } ∷ [];
    }
    else l

unfoldable pub settle_one : Text → Map (Map ℕ) → Text → ℕ → Ledger → Ledger
unfolding restore settle
settle_one rkey arch t execs l =
    let floors = restore rkey t arch l.floors in
    settle t execs (lookup t floors) (record l {
      floors = floors;
      regimes = if is_empty rkey then l.regimes else put t rkey l.regimes;
    })

module _ (f : Float) where
  open f use {F, of_nat, lt, le}

  -- The rate floors and their counters.
  pub record Rates : Type 0 where
    pub floors : Map F
    pub added : ℕ
    pub raised : ℕ

  unfoldable pub raise_rate : Text → F → Option F → Rates → Rates
  raise_rate t rate none r = record r { floors = put t rate r.floors; added = r.added + 1 }
  raise_rate t rate (some old) r =
      if lt old rate then record r { floors = put t rate r.floors; raised = r.raised + 1 } else r

  -- One round of the first loop.
  unfoldable pub rate_one : Text → F → Rates → Rates
  unfolding raise_rate
  rate_one t rate r = if le rate (of_nat 0) then r else raise_rate t rate (lookup t r.floors) r

  unfoldable pub rate_all : List (Observation f) → Rates → Rates
  rate_all [] r = r
  rate_all (o ∷ obs) r = rate_all obs (rate_one o.target o.rate r)

  -- `rkey`: the first regime that an observation names.
  unfoldable pub regime_key : List (Observation f) → Text
  regime_key [] = []
  regime_key (o ∷ obs) = if is_empty o.regime then regime_key obs else o.regime

  unfoldable pub settle_all : Text → Map (Map ℕ) → List (Observation f) → Ledger → Ledger
  settle_all rkey arch [] l = l
  settle_all rkey arch (o ∷ obs) l =
      settle_all rkey arch obs (settle_one rkey arch o.target o.execs l)

  abbrev pub shift_of : Baseline f → Text → List (Observation f) → Shift
  shift_of b ws obs = shift (regime_key obs) (record {
    floors = lookup_or [] ws b.floors;
    regimes = lookup_or [] ws b.regimes;
    archive = lookup_or [] ws b.archive;
    switched = [];
  })

  abbrev pub ledger_of : Baseline f → Text → List (Observation f) → Ledger
  ledger_of b ws obs =
      settle_all (regime_key obs) (shift_of b ws obs).archive obs (opened (shift_of b ws obs))

  abbrev pub rates_of : Baseline f → Text → List (Observation f) → Rates
  rates_of b ws obs =
      rate_all obs (record { floors = lookup_or [] ws b.rate_floors; added = 0; raised = 0 })

  -- `Update`: the baseline after it, and what it reports.
  unfoldable pub update : Baseline f → Text → List (Observation f) → Baseline f × UpdateResult
  update b ws obs =
      let rates = rates_of b ws obs in
      let shifted = shift_of b ws obs in
      let ledger = ledger_of b ws obs in
      (
        record b {
          floors = put ws ledger.floors b.floors;
          regimes = put ws ledger.regimes b.regimes;
          rate_floors = put ws rates.floors b.rate_floors;
          archive = put ws shifted.archive b.archive;
        },
        record {
          added = ledger.added;
          raised = ledger.raised;
          rate_added = rates.added;
          rate_raised = rates.raised;
          switched = sort_by (λ a b. less a.target b.target) shifted.switched;
          changes = sort_by (λ a b. less a.target b.target) ledger.changes;
        },
      )
