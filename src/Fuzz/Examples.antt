-- ===== src/Fuzz/Examples.antt =====
-- A file of budgets, and a pool of one token on two targets.
use pg_fuzz.Base.{
  none, ◌≡◌, ◌≢◌, refl, List, [], ◌∷◌, ◌++◌, some, Text, codes, arith, holds, trim_space,
  has_prefix, split_on, atoi,
}
use pg_fuzz.Fuzz.Budgets.{budget_for, load_budgets, load_lines, load_budget}
use pg_fuzz.Fuzz.Pool.{IsSafe, Reach-IsSafe}
use pg_fuzz.Fuzz.Progress.{pick-Reach}
use pg_fuzz.Fuzz.Schedule.{
  Pool, empty_pool, waiting, holding_token, pick, Reach, begun, stepped, acquire, launch,
}

abbrev budgets : List Text
budgets =
    codes "# workspace" ∷ (codes "pg17" ++ (b'\t' ∷ (codes "numeric" ++ (b'\t' ∷ codes "45")))) ∷ []

budget_is_read : budget_for (load_budgets (some budgets)) (codes "pg17") (codes "numeric") 90 ≡ 45
unfolding budget_for load_budgets load_lines load_budget trim_space has_prefix split_on atoi
budget_is_read = refl

abbrev targets : List Text
targets = codes "numeric" ∷ codes "regex" ∷ []

abbrev one_taken : Pool
one_taken = record empty_pool { phase = holding_token; tokens = 1 }

abbrev one_running : Pool
one_running = record {
  phase = waiting;
  next = 1;
  in_flight = codes "numeric" ∷ [];
  landed = 0;
  tokens = 1;
  started = 1;
}

reached : Reach targets 1 one_running
unfolding pick holds
reached =
    stepped (stepped begun (acquire empty_pool refl (omega arith)))
      (launch one_taken (codes "numeric") 1 refl refl)

Reach-IsSafe_example : IsSafe 1 one_running
Reach-IsSafe_example = Reach-IsSafe reached

pick-Reach_example : pick targets one_taken ≢ none
unfolding holds
pick-Reach_example =
    pick-Reach {conc = 1} one_taken (refl, (refl, tt)) (omega arith)
      (stepped begun (acquire empty_pool refl (omega arith))) refl
