-- ===== src/Census/Split.antt =====
-- internal/census/summary.go: `Sanitizer` and `Annotate`.
use pg_fuzz.Base.{has_suffix, ℕ, ◌+◌, List, [], ◌∷◌, Text, Map, codes, eq, lookup_or, if◌then◌else◌}
use pg_fuzz.Census.Rows.{Row}

pub data Sanitizer : Type 0 where
  asan ubsan coverage other : Sanitizer

unfoldable pub sanitizer_of : Text → Map Text → Sanitizer
sanitizer_of ws known =
    let recorded = lookup_or [] ws known in
    if eq recorded (codes "address")
    then asan
    else if eq recorded (codes "undefined")
    then ubsan
    else if eq recorded (codes "coverage")
    then coverage
    else if has_suffix ws (codes "-add")
    then asan
    else if has_suffix ws (codes "-und")
    then ubsan
    else other

abbrev is_asan : Sanitizer → ℕ
is_asan asan = 1
is_asan s = 0

abbrev is_ubsan : Sanitizer → ℕ
is_ubsan ubsan = 1
is_ubsan s = 0

abbrev count_by : (Sanitizer → ℕ) → Map Text → List Text → ℕ
count_by p known [] = 0
count_by p known (w ∷ ws) = p (sanitizer_of w known) + count_by p known ws

unfoldable pub annotate : Map Text → List Row → List Row
annotate known [] = []
annotate known (r ∷ rs) =
    record r {
      asan = count_by is_asan known r.workspaces;
      ubsan = count_by is_ubsan known r.workspaces;
    }
    ∷ annotate known rs
