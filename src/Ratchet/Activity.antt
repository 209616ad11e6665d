-- ===== src/Ratchet/Activity.antt =====
-- go/internal/ratchet/analysis.go: `Activity`, what the floors did, as the figures that it prints.
use pg_fuzz.Base.{
  ℕ, Bool, not, ◌&&◌, List, [], ◌∷◌, ◌++◌, Option, none, some, Text, Map, codes, eq, holds, keep,
  length, max, sort_by, take, tally, ltb, ◌==◌, if◌then◌else◌,
}
use pg_fuzz.Float.{Float}
use pg_fuzz.Ratchet.Show.{by_count_desc, since_ok, span}

pub record FloorMove : Type 0 where
  pub kind : Text
  pub target : Text
  pub from : ℕ
  pub to : ℕ

pub record HistoryRow : Type 0 where
  pub ws : Text
  pub round : Option ℕ
  pub log_mtime : Text
  pub changes : List FloorMove

abbrev pub kinds_in : List FloorMove → List Text
kinds_in [] = []
kinds_in (c ∷ cs) = c.kind ∷ kinds_in cs

abbrev pub all_kinds : List HistoryRow → List Text
all_kinds [] = []
all_kinds (r ∷ rs) = kinds_in r.changes ++ all_kinds rs

abbrev all_times : List HistoryRow → List Text
all_times [] = []
all_times (r ∷ rs) = r.log_mtime ∷ all_times rs

abbrev add_name : Text → List Text → List Text
add_name t ts = if holds t ts then ts else ts ++ t ∷ []

-- `byRound`.
abbrev add_to_round : ℕ → Text → List (ℕ × List Text) → List (ℕ × List Text)
add_to_round k ws [] = (k, ws ∷ []) ∷ []
add_to_round k ws ((j, wss) ∷ m) =
    let rest = add_to_round k ws m in if j == k then (j, add_name ws wss) ∷ m else (j, wss) ∷ rest

abbrev group_round : Option ℕ → Text → List (ℕ × List Text) → List (ℕ × List Text)
group_round none ws m = m
group_round (some k) ws m = add_to_round k ws m

abbrev by_rounds : List HistoryRow → List (ℕ × List Text) → List (ℕ × List Text)
by_rounds [] m = m
by_rounds (r ∷ rs) m = by_rounds rs (group_round r.round r.ws m)

abbrev unrounded : Option ℕ → Text → List Text → List Text
unrounded none ws wss = add_name ws wss
unrounded (some k) ws wss = wss

abbrev no_rounds : List HistoryRow → List Text → List Text
no_rounds [] wss = wss
no_rounds (r ∷ rs) wss = no_rounds rs (unrounded r.round r.ws wss)

abbrev earlier_round : ℕ × List Text → ℕ × List Text → Bool
earlier_round a b = ltb a.0 b.0

abbrev in_rounds : List (ℕ × List Text) → List (ℕ × ℕ)
in_rounds [] = []
in_rounds ((k, wss) ∷ m) = (k, length wss) ∷ in_rounds m

module _ (f : Float) where
  open f use {F, of_nat, div, lt}

  pub record Raise : Type 0 where
    pub ratio : F
    pub ws : Text
    pub target : Text
    pub from : ℕ
    pub to : ℕ

  abbrev raises_in : Text → List FloorMove → List Raise
  raises_in ws [] = []
  raises_in ws (c ∷ cs) =
      let rest = raises_in ws cs in
      if eq c.kind (codes "raise") && not (c.from == 0)
      then record {
        ratio = div (of_nat c.to) (of_nat (max c.from 1));
        ws = ws;
        target = c.target;
        from = c.from;
        to = c.to;
      }
        ∷ rest
      else rest

  abbrev all_raises : List HistoryRow → List Raise
  all_raises [] = []
  all_raises (r ∷ rs) = raises_in r.ws r.changes ++ all_raises rs

  abbrev larger_raise : Raise → Raise → Bool
  larger_raise a b = lt b.ratio a.ratio

  pub record Active : Type 0 where
    pub first : Text
    pub last : Text
    pub moved : ℕ
    pub kinds : Map ℕ
    pub kind_order : List Text
    pub rounds : List (ℕ × ℕ)
    pub without_round : ℕ
    pub raises : List Raise

  abbrev pub active_of : ℕ → List HistoryRow → Text × Text → Active
  active_of top recs (lo, hi) = record {
    first = lo;
    last = hi;
    moved = length recs;
    kinds = tally (all_kinds recs) [];
    kind_order = by_count_desc (tally (all_kinds recs) []);
    rounds = in_rounds (sort_by earlier_round (by_rounds recs []));
    without_round = length (no_rounds recs []);
    raises = take top (sort_by larger_raise (all_raises recs));
  }

  abbrev pub since_rows : Text → List HistoryRow → List HistoryRow
  since_rows since all = keep (λ (r : HistoryRow). since_ok r.log_mtime since) all

  abbrev pub some_active : ℕ → List HistoryRow → Option Active
  some_active top [] = none
  some_active top (r ∷ rs) = some (active_of top (r ∷ rs) (span (all_times (r ∷ rs))))

  -- `Activity`: none where there is no record.
  unfoldable pub activity : List HistoryRow → Text → ℕ → Option Active
  activity all since top = some_active top (since_rows since all)
