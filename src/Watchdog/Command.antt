-- ===== src/Watchdog/Command.antt =====
-- What `sweep` of internal/watchdog/watchdog.go reads from a container's command line: whether it is
-- a fuzz container, its `max_total_time=`, and its target. A regular expression is the function that
-- finds its leftmost match.
use pg_fuzz.Base.{
  is_digit, Text, List, [], ◌∷◌, Bool, Option, none, some, codes, contains, eq, has_prefix, drop,
  length, leb, min, ℕ, ◌+◌, ◌-◌, ◌*◌, ◌^◌, ◌==◌, ◌&&◌, ◌||◌, if◌then◌else◌, onto_first,
}
use mathlib.Core.Option

unfoldable pub is_fuzz : Text → Bool
is_fuzz cmd = contains cmd (codes "run_fuzzer") || contains cmd (codes "_fuzz")

abbrev leading_digits : Text → Text
leading_digits [] = []
leading_digits (c ∷ s) = let rest = leading_digits s in if is_digit c then c ∷ rest else []

abbrev some_digits : Text → Option Text
some_digits [] = none
some_digits (c ∷ s) = some (c ∷ s)

abbrev budget_at : Text → Option Text
budget_at s =
    if has_prefix s (codes "max_total_time=")
    then some_digits (leading_digits (drop (length (codes "max_total_time=")) s))
    else none

abbrev first_of : Option Text → Option Text → Option Text
first_of none o = o
first_of (some t) o = some t

-- `budgetRe`: the digits behind the first `max_total_time=` that has any.
unfoldable pub budget_digits : Text → Option Text
budget_digits [] = none
budget_digits (c ∷ s) = first_of (budget_at (c ∷ s)) (budget_digits s)

abbrev number_from : ℕ → Text → ℕ
number_from acc [] = acc
number_from acc (c ∷ s) = number_from (acc * 10 + (c - b'0')) s

-- `budget, _ := strconv.Atoi(m[1])`: what is too large is the largest `int`.
unfoldable pub budget_of : Text → ℕ
budget_of digits = min (number_from 0 digits) (2 ^ 63 - 1)

abbrev in_target : ℕ → Bool
in_target c = (leb b'a' c && leb c b'z') || (c == b'_')

-- The longest runs of the letters of a target's name, with empty ones between other bytes.
unfoldable pub name_runs : Text → List Text
name_runs [] = [] ∷ []
name_runs (c ∷ s) = let rest = name_runs s in if in_target c then onto_first c rest else [] ∷ rest

abbrev or_suffix : Bool → Option Text → ℕ → Option Text
or_suffix here (some t) c = some (c ∷ t)
or_suffix here none c = if here then some (codes "_fuzzer") else none

-- The text up to the end of its last `_fuzzer`.
abbrev upto_fuzzer : Text → Option Text
upto_fuzzer [] = none
upto_fuzzer (c ∷ s) = or_suffix (has_prefix (c ∷ s) (codes "_fuzzer")) (upto_fuzzer s) c

-- `targetRe` in one run: it wants a letter before `_fuzzer`.
unfoldable pub target_in : Text → Option Text
target_in [] = none
target_in (c ∷ s) = Option.map (λ t. c ∷ t) (upto_fuzzer s)

abbrev not_wrapper : Option Text → Text → Text
not_wrapper none rest = rest
not_wrapper (some t) rest = if eq t (codes "run_fuzzer") then rest else t

abbrev first_target : List Text → Text
first_target [] = []
first_target (r ∷ rs) = not_wrapper (target_in r) (first_target rs)

-- The first target that is not the wrapper, or none.
unfoldable pub target_named : Text → Text
target_named cmd = first_target (name_runs cmd)
