-- ===== src/Fuzz/Budgets.antt =====
-- go/internal/fuzz/budget.go: how long each target runs.
use pg_fuzz.Base.{
  ℕ, ◌<◌, ◌≡◌, inl, inr, ◌||◌, List, [], ◌∷◌, Option, none, some, Text, Map, codes, lookup,
  lookup_or, lookup-put, put, eq, is_empty, split_on, trim_space, has_prefix, atoi, length,
  get_elem?, or_else, ltb, ◌==◌, if◌then◌else◌, Bool-cases, Option-cases, arith,
}

-- `SlowDefaults`.
abbrev pub slow_defaults : Map ℕ
slow_defaults = (codes "spi_query_fuzzer", 150) ∷ (codes "simple_query_fuzzer", 200) ∷ []

abbrev pub Budgets : Type 0
Budgets = Map (Map ℕ)

abbrev column_of : List Text → ℕ → Text
column_of cols i = trim_space (or_else (get_elem? cols i) [])

abbrev set_budget : List Text → Option ℕ → Budgets → Budgets
set_budget cols none b = b
set_budget cols (some secs) b =
    if secs == 0
    then b
    else put (column_of cols 0) (put (column_of cols 1) secs (lookup_or [] (column_of cols 0) b)) b

-- One line: an empty one, a comment, one of fewer than three columns, and one whose seconds are not
-- a number above nothing, are left out.
unfoldable pub load_budget : Text → Budgets → Budgets
load_budget raw b =
    let line = trim_space raw in
    if is_empty line || has_prefix line (codes "#")
    then b
    else if ltb (length (split_on b'\t' line)) 3
    then b
    else set_budget (split_on b'\t' line) (atoi (column_of (split_on b'\t' line) 2)) b

unfoldable pub load_lines : List Text → Budgets → Budgets
load_lines [] b = b
load_lines (l ∷ ls) b = load_lines ls (load_budget l b)

-- `LoadBudgets`, on the lines of the file; none if it cannot be opened.
unfoldable pub load_budgets : Option (List Text) → Budgets
load_budgets none = []
load_budgets (some ls) = load_lines ls []

abbrev for_default : Text → ℕ → ℕ
for_default target def = or_else (lookup target slow_defaults) def

abbrev for_target : Text → ℕ → Option (Map ℕ) → ℕ
for_target target def none = for_default target def
for_target target def (some per) = or_else (lookup target per) (for_default target def)

-- `Budgets.For`.
unfoldable pub budget_for : Budgets → Text → Text → ℕ → ℕ
budget_for b ws target def = for_target target def (lookup ws b)

-- Every budget is above nothing.
abbrev Positive : Budgets → Type 0
Positive b =
    (ws target : Text) (per : Map ℕ) (v : ℕ)
    → lookup ws b ≡ some per
    → lookup target per ≡ some v
    → 0 < v

Positive-put :
    (b : Budgets) (k j : Text) (secs : ℕ)
    → 0 < secs
    → Positive b
    → Positive (put k (put j secs (lookup_or [] k b)) b)
Positive-put b k j secs h p ws target per v there value = elim (Bool-cases (eq k ws)) [
  | inl e ↦
      let same : put j secs (lookup_or [] k b) ≡ per =
        cc (rw (lookup-put k ws (put j secs (lookup_or [] k b)) b, e) at there) in
      elim (Bool-cases (eq j target)) [
        | inl here ↦
            let found : lookup target (put j secs (lookup_or [] k b)) ≡ some v = rw same value in
            let equal : secs ≡ v =
              cc (rw (lookup-put j target secs (lookup_or [] k b), here) at found) in
            omega arith
        | inr other ↦
            let found : lookup target (put j secs (lookup_or [] k b)) ≡ some v = rw same value in
            let old : lookup target (lookup_or [] k b) ≡ some v =
              rw (lookup-put j target secs (lookup_or [] k b), other) at found in
            elim (Option-cases (lookup k b)) [
              | inl q ↦ absurd (cc (rw q at old))
              | inr (m, q) ↦ p k target m v q (rw q at old)
            ]
      ]
  | inr e ↦
      p ws target per v (rw (lookup-put k ws (put j secs (lookup_or [] k b)) b, e) at there) value
]

Positive-set_budget :
    (cols : List Text) (secs : Option ℕ) (b : Budgets)
    → Positive b
    → Positive (set_budget cols secs b)
Positive-set_budget cols none b p = p
Positive-set_budget cols (some secs) b p = elim (Bool-cases (secs == 0)) [
  | inl e ↦ rw e p
  | inr e ↦ rw e (Positive-put b (column_of cols 0) (column_of cols 1) secs (ground arith) p)
]

Positive-load_budget : (raw : Text) (b : Budgets) → Positive b → Positive (load_budget raw b)
unfolding load_budget
Positive-load_budget raw b p =
    let line = trim_space raw in
    let cols = split_on b'\t' line in
    elim (Bool-cases (is_empty line || has_prefix line (codes "#"))) [
      | inl e ↦ rw e p
      | inr e ↦ elim (Bool-cases (ltb (length cols) 3)) [
        | inl short ↦ rw (e, short) p
        | inr full ↦ rw (e, full) (Positive-set_budget cols (atoi (column_of cols 2)) b p)
      ]
    ]

Positive-load_lines : (ls : List Text) (b : Budgets) → Positive b → Positive (load_lines ls b)
unfolding load_lines
Positive-load_lines [] b p = p
Positive-load_lines (l ∷ ls) b p =
    Positive-load_lines ls (load_budget l b) (Positive-load_budget l b p)

Positive-load_budgets : (file : Option (List Text)) → Positive (load_budgets file)
unfolding load_budgets
Positive-load_budgets none = λ ws target per v h k. cc
Positive-load_budgets (some ls) = Positive-load_lines ls [] (λ ws target per v h k. cc)

for_default-positive : (target : Text) (def : ℕ) → 0 < def → 0 < for_default target def
for_default-positive target def h = ground arith

-- Whatever the file of budgets holds, no target runs for no time, if the given default is above
-- nothing.
pub budget_for-load_budgets :
    (file : Option (List Text)) (ws target : Text) (def : ℕ)
    → 0 < def
    → 0 < budget_for (load_budgets file) ws target def
unfolding budget_for
budget_for-load_budgets file ws target def h = elim (Option-cases (lookup ws (load_budgets file))) [
  | inl e ↦ rw e (for_default-positive target def h)
  | inr (per, e) ↦ elim (Option-cases (lookup target per)) [
    | inl q ↦ rw (e, q) (for_default-positive target def h)
    | inr (v, q) ↦ rw (e, q) (Positive-load_budgets file ws target per v e q)
  ]
]
