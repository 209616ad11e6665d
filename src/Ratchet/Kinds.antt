-- ===== src/Ratchet/Kinds.antt =====
-- The kinds of change that `Activity` counts.
use pg_fuzz.Base.{
  ℕ, List, [], ◌∷◌, Option, none, some, Text, count, size, lookup_or, lookup_or-tally, tally, total,
  total-tally, ◌≡◌, ap, sym, ◌∙◌, arith,
}
use pg_fuzz.Float.{Float}
use pg_fuzz.Ratchet.Activity.{HistoryRow, all_kinds, Active, since_rows, some_active, activity}

-- The counts of the kinds are those of the changes in the rows that are recent enough, and together
-- they are all of these changes.
pub activity-kinds :
    (f : Float) (all : List HistoryRow) (since : Text) (top : ℕ) (a : Active f)
    → activity f all since top ≡ some a
    → ((k : Text) → lookup_or 0 k a.kinds ≡ count k (all_kinds (since_rows f since all)))
      × (total a.kinds ≡ size (all_kinds (since_rows f since all)))
unfolding activity
activity-kinds f all since top a h = of_rows (since_rows f since all) h
  where
    kinds_seen : Option (Active f) → Active f
    kinds_seen none = a
    kinds_seen (some b) = b

    of_rows :
        (rs : List HistoryRow)
        → some_active f top rs ≡ some a
        → ((k : Text) → lookup_or 0 k a.kinds ≡ count k (all_kinds rs))
          × (total a.kinds ≡ size (all_kinds rs))
    of_rows [] e = absurd (cc)
    of_rows (r ∷ rs) e =
        let same : tally (all_kinds (r ∷ rs)) [] ≡ a.kinds =
          ap (λ (o : Option (Active f)). (kinds_seen o).kinds) e in
        (
          λ k.
              ap (lookup_or 0 k) (sym same)
              ∙ lookup_or-tally k (all_kinds (r ∷ rs)) []
              ∙ omega arith,
          ap total (sym same) ∙ total-tally (all_kinds (r ∷ rs)) [] ∙ omega arith,
        )
