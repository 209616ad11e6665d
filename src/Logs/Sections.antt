-- ===== src/Logs/Sections.antt =====
-- What a target's totals in a log of many come from.
use pg_fuzz.Base.{
  subst, ◌||◌, ℕ, ◌+◌, Bool, true, false, List, [], ◌∷◌, Text, Map, eq, eq_iff, eq_refl, is_some,
  lookup, lookup_or, lookup-put, max, ltb, if◌then◌else◌, ◌≡◌, refl, ◌∙◌, inl, inr, arith,
  Bool-cases,
}
use pg_fuzz.Logs.Sweep.{
  SweepLine, fuzzing, execs_line, new_line, average_line, done_line, other_line, SweepState, add_at,
  raise_at, credit_line,
}

-- The lines of a target's own sections; what stands before the first banner is nobody's.
abbrev pub own : Text → Text → List SweepLine → List SweepLine
own t current [] = []
own t current (fuzzing name ∷ ls) = own t name ls
own t current (execs_line n ∷ ls) =
    let rest = own t current ls in if eq current t then execs_line n ∷ rest else rest
own t current (new_line n ∷ ls) =
    let rest = own t current ls in if eq current t then new_line n ∷ rest else rest
own t current (average_line n ∷ ls) =
    let rest = own t current ls in if eq current t then average_line n ∷ rest else rest
own t current (done_line n secs ∷ ls) =
    let rest = own t current ls in if eq current t then done_line n secs ∷ rest else rest
own t current (other_line ∷ ls) = own t current ls

-- Sums over lines, and the longest of the completed runs.
abbrev pub has_execs : List SweepLine → Bool
has_execs [] = false
has_execs (execs_line n ∷ ls) = true
has_execs (l ∷ ls) = has_execs ls

abbrev pub sum_execs : List SweepLine → ℕ
sum_execs [] = 0
sum_execs (execs_line n ∷ ls) = n + sum_execs ls
sum_execs (l ∷ ls) = sum_execs ls

abbrev pub sum_new : List SweepLine → ℕ
sum_new [] = 0
sum_new (new_line n ∷ ls) = n + sum_new ls
sum_new (l ∷ ls) = sum_new ls

abbrev pub sum_average : List SweepLine → ℕ
sum_average [] = 0
sum_average (average_line n ∷ ls) = n + sum_average ls
sum_average (l ∷ ls) = sum_average ls

abbrev pub sum_runs : List SweepLine → ℕ
sum_runs [] = 0
sum_runs (done_line n secs ∷ ls) = n + sum_runs ls
sum_runs (l ∷ ls) = sum_runs ls

abbrev pub most_secs : List SweepLine → ℕ
most_secs [] = 0
most_secs (done_line n secs ∷ ls) = max secs (most_secs ls)
most_secs (l ∷ ls) = most_secs ls

lookup_or-add_at :
    (t j : Text) (n : ℕ) (m : Map ℕ)
    → lookup_or 0 j (add_at t n m) ≡ (if eq t j then lookup_or 0 j m + n else lookup_or 0 j m)
lookup_or-add_at t j n m = elim (Bool-cases (eq t j)) [
  | inl e ↦ rw (lookup-put t j (lookup_or 0 t m + n) m, e) (rw ((eq_iff t j).0 e) refl)
  | inr e ↦ rw (lookup-put t j (lookup_or 0 t m + n) m, e) refl
]

is_some-add_at :
    (t j : Text) (n : ℕ) (m : Map ℕ)
    → is_some (lookup j (add_at t n m)) ≡ is_some (lookup j m) || eq t j
is_some-add_at t j n m = elim (Bool-cases (eq t j)) [
  | inl e ↦ rw (lookup-put t j (lookup_or 0 t m + n) m, e) (ground arith)
  | inr e ↦ rw (lookup-put t j (lookup_or 0 t m + n) m, e) (ground arith)
]

lookup_or-raise_at_self :
    (t : Text) (n : ℕ) (m : Map ℕ) → lookup_or 0 t (raise_at t n m) ≡ max (lookup_or 0 t m) n
lookup_or-raise_at_self t n m = elim (Bool-cases (ltb (lookup_or 0 t m) n)) [
  | inr e ↦ rw e (ground (arith, e))
  | inl e ↦ rw (e, lookup-put t t n m, eq_refl t) (ground (arith, e))
]

lookup_or-raise_at :
    (t j : Text) (n : ℕ) (m : Map ℕ)
    → lookup_or 0 j (raise_at t n m) ≡ (if eq t j then max (lookup_or 0 j m) n else lookup_or 0 j m)
lookup_or-raise_at t j n m = elim (Bool-cases (eq t j)) [
  | inl q ↦ rw q (
      subst (λ (k : Text). lookup_or 0 k (raise_at t n m) ≡ max (lookup_or 0 k m) n)
        ((eq_iff t j).0 q) (lookup_or-raise_at_self t n m))
  | inr q ↦ elim (Bool-cases (ltb (lookup_or 0 t m) n)) [
    | inr e ↦ rw (e, q) refl
    | inl e ↦ rw (e, lookup-put t j n m, q) refl
  ]
]

-- What a target has in the state, and what its lines add.
abbrev pub Has : Text → SweepState → List SweepLine → SweepState → Type 0
Has t s ls s' =
    (is_some (lookup t s'.execs) ≡ is_some (lookup t s.execs) || has_execs ls)
    × (lookup_or 0 t s'.execs ≡ lookup_or 0 t s.execs + sum_execs ls)
    × (lookup_or 0 t s'.new_units ≡ lookup_or 0 t s.new_units + sum_new ls)
    × (lookup_or 0 t s'.average ≡ lookup_or 0 t s.average + sum_average ls)
    × (lookup_or 0 t s'.runs ≡ lookup_or 0 t s.runs + sum_runs ls)
    × (lookup_or 0 t s'.secs ≡ max (lookup_or 0 t s.secs) (most_secs ls))

pub Has-refl : (t : Text) (s : SweepState) → Has t s [] s
Has-refl t s = (ground arith, omega arith, omega arith, omega arith, omega arith, omega arith)

pub credit_line-other :
    (t j : Text) (l : SweepLine) (s : SweepState) → eq t j ≡ false → Has j s [] (credit_line t l s)
credit_line-other t j (fuzzing name) s h = Has-refl j s
credit_line-other t j other_line s h = Has-refl j s
credit_line-other t j (execs_line n) s h = (
  is_some-add_at t j n s.execs ∙ ground (arith, h),
  lookup_or-add_at t j n s.execs ∙ ground (arith, h),
  omega arith,
  omega arith,
  omega arith,
  omega arith,
)
credit_line-other t j (new_line n) s h = (
  ground arith,
  omega arith,
  lookup_or-add_at t j n s.new_units ∙ ground (arith, h),
  omega arith,
  omega arith,
  omega arith,
)
credit_line-other t j (average_line n) s h = (
  ground arith,
  omega arith,
  omega arith,
  lookup_or-add_at t j n s.average ∙ ground (arith, h),
  omega arith,
  omega arith,
)
credit_line-other t j (done_line n secs) s h = (
  ground arith,
  omega arith,
  omega arith,
  omega arith,
  lookup_or-add_at t j n s.runs ∙ ground (arith, h),
  lookup_or-raise_at t j secs s.secs ∙ ground (arith, h),
)

pub credit_line-own :
    (t : Text) (l : SweepLine) (s : SweepState) → Has t s (l ∷ []) (credit_line t l s)
credit_line-own t (fuzzing name) s = Has-refl t s
credit_line-own t other_line s = Has-refl t s
credit_line-own t (execs_line n) s = (
  is_some-add_at t t n s.execs ∙ ground (arith, eq_refl t),
  lookup_or-add_at t t n s.execs ∙ ground (arith, eq_refl t),
  omega arith,
  omega arith,
  omega arith,
  omega arith,
)
credit_line-own t (new_line n) s = (
  ground arith,
  omega arith,
  lookup_or-add_at t t n s.new_units ∙ ground (arith, eq_refl t),
  omega arith,
  omega arith,
  omega arith,
)
credit_line-own t (average_line n) s = (
  ground arith,
  omega arith,
  omega arith,
  lookup_or-add_at t t n s.average ∙ ground (arith, eq_refl t),
  omega arith,
  omega arith,
)
credit_line-own t (done_line n secs) s = (
  ground arith,
  omega arith,
  omega arith,
  omega arith,
  lookup_or-add_at t t n s.runs ∙ ground (arith, eq_refl t),
  lookup_or-raise_at t t secs s.secs ∙ ground (arith, eq_refl t),
)
