-- ===== src/Campaign/Order.antt =====
-- go/internal/campaign/order.go: the targets of a workspace by what they found last.
use pg_fuzz.Base.{
  ℕ, Bool, not, List, [], ◌∷◌, Text, Map, lookup_or, put, eq, less, sort_by, ltb, ◌==◌,
  if◌then◌else◌,
}

-- The comparison of `ByProductivity`.
abbrev pub ranks_before : Map ℕ → Text → Text → Bool
ranks_before latest s t =
    let a = lookup_or 0 s latest in
    let b = lookup_or 0 t latest in if not (a == b) then ltb b a else less s t

-- `ByProductivity`.
unfoldable pub by_productivity : List Text → Map ℕ → List Text
by_productivity targets latest = sort_by (ranks_before latest) targets

pub record SeriesNewUnits : Type 0 where
  pub ws : Text
  pub new_units : Map ℕ

-- The inner loop: later rows overwrite earlier ones.
unfoldable pub overwrite : Map ℕ → Map ℕ → Map ℕ
overwrite [] out = out
overwrite ((t, v) ∷ m) out = overwrite m (put t v out)

unfoldable pub latest_from : List SeriesNewUnits → Text → Map ℕ → Map ℕ
latest_from [] ws out = out
latest_from (r ∷ rs) ws out =
    latest_from rs ws (if eq r.ws ws then overwrite r.new_units out else out)

-- `LatestNewUnits`.
unfoldable pub latest_new_units : List SeriesNewUnits → Text → Map ℕ
latest_new_units rows ws = latest_from rows ws []
