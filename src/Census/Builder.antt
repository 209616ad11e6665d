-- ===== src/Census/Builder.antt =====
-- internal/census/census.go: the builder, which accumulates signatures across workspaces.
use pg_fuzz.Base.{
  ℕ, ◌+◌, List, [], ◌∷◌, ◌++◌, Text, Map, is_empty, holds, lookup_or, put, bump, if◌then◌else◌,
}

pub record Builder : Type 0 where
  pub per_ws : Map (Map ℕ)
  pub targets : Map (List Text)
  pub sources : Map (List Text)
  pub units : Map (Map ℕ)

-- `New`.
abbrev pub empty : Builder
empty = record { per_ws = []; targets = []; sources = []; units = [] }

-- A set as the list of its keys; the empty text is not added.
unfoldable pub add_to : Text → List Text → List Text
add_to t ts = if is_empty t then ts else if holds t ts then ts else ts ++ t ∷ []

unfoldable pub record_sig : Text → Text → Text → Text → Builder → Builder
record_sig ws target sig src b = record b {
  per_ws = put sig (bump ws (lookup_or [] sig b.per_ws)) b.per_ws;
  targets = put sig (add_to target (lookup_or [] sig b.targets)) b.targets;
  sources = put sig (add_to src (lookup_or [] sig b.sources)) b.sources;
}

abbrev pub record_each : Text → Text → List (Text × Text) → Builder → Builder
record_each ws target [] b = b
record_each ws target ((sig, src) ∷ hs) b =
    record_each ws target hs (record_sig ws target sig src b)

abbrev sum_units : List ℕ → ℕ
sum_units [] = 0
sum_units (n ∷ ns) = n + sum_units ns

-- `CountUnits`, of the numbers that its expression finds.
unfoldable pub count_units : Text → Text → List ℕ → Builder → Builder
count_units ws target ns b =
    let per = lookup_or [] ws b.units in
    record b { units = put ws (put target (lookup_or 0 target per + sum_units ns) per) b.units }
