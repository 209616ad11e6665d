-- ===== src/Watchdog/Examples.antt =====
-- The watchdog at concrete inputs.
use pg_fuzz.Base.{
  Text, [], ◌∷◌, true, false, some, none, codes, contains, has_prefix, ltb, ◌*◌, ◌^◌, ◌+◌, ◌<◌, ◌≡◌,
  ◌↔◌, ◌⊎◌, ◌≤◌, refl, arith, ℕ, is_empty,
}
use pg_fuzz.Watchdog.Command.{is_fuzz, budget_digits, budget_of, target_named, target_in, name_runs}
use pg_fuzz.Watchdog.Sweep.{
  Options, Container, Answers, overdue, sigterm, asked, exited, second, int_leb, deadline,
  wait_down, wait_fuel, stop_container, is_overdue, visit, sweep_containers,
}
use pg_fuzz.Watchdog.Safety.{
  Ended, wait_down_total, is_overdue_iff, kills, Survived, kills-visit, visit_signalled,
}

abbrev defaults : Options
defaults = record {
  grace = 300 * second;
  term_wait = 20 * second;
  interval = 60 * second;
  beat = 3600 * second;
}

abbrev hung : Container
hung = record {
  id = codes "c1";
  name = codes "fuzz_1";
  cmd = codes "sh run_fuzzer protocol_fuzzer -max_total_time=90 | tee";
}

-- Gone at the fourth question.
abbrev polite : Answers
polite = record { age = 400 * second; signalled = true; up = λ n. ltb n 3; killed = true }

abbrev deaf : Answers
deaf = record { age = 400 * second; signalled = true; up = λ n. true; killed = true }

hung_fuzz : is_fuzz hung.cmd ≡ true
unfolding is_fuzz contains has_prefix
hung_fuzz = refl

hung_budget : budget_digits hung.cmd ≡ some (codes "90")
unfolding budget_digits has_prefix
hung_budget = refl

hung_target : target_named hung.cmd ≡ codes "protocol_fuzzer"
unfolding target_named name_runs target_in has_prefix
hung_target = refl

hung_overdue : is_overdue defaults (budget_of (codes "90")) deaf ≡ true
unfolding is_overdue int_leb deadline budget_of
hung_overdue = refl

polite_overdue : is_overdue defaults (budget_of (codes "90")) polite ≡ true
unfolding is_overdue int_leb deadline budget_of
polite_overdue = refl

hung_named : is_empty (target_named hung.cmd) ≡ false
unfolding target_named name_runs target_in has_prefix
hung_named = refl

visit_test :
    visit defaults hung polite
    ≡ overdue (codes "fuzz_1") (codes "protocol_fuzzer") (400 * second) 90
      ∷ sigterm (codes "c1") (codes "protocol_fuzzer")
      ∷ asked (codes "protocol_fuzzer")
      ∷ exited (codes "fuzz_1") (3 * second)
      ∷ []
unfolding visit is_fuzz contains has_prefix budget_digits budget_of is_overdue int_leb deadline
    stop_container wait_down target_named name_runs target_in
visit_test = refl

sweep_test : sweep_containers defaults none ≡ none
unfolding sweep_containers
sweep_test = refl

wait_down_total_example :
    (r : ℕ × ℕ) × (wait_down (wait_fuel (20 * second)) (20 * second) deaf.up 0 ≡ some r)
    × Ended (20 * second) deaf.up r
wait_down_total_example = wait_down_total (20 * second) deaf.up

is_overdue_iff_example :
    (is_overdue defaults 90 deaf ≡ true)
    ↔ ((90 * second + defaults.grace < deaf.age) ⊎ (2 ^ 63 ≤ 90 * second + defaults.grace))
is_overdue_iff_example = is_overdue_iff defaults 90 deaf (omega arith) (omega arith)

hung_killed : kills (visit defaults hung deaf) ≡ true
hung_killed =
    (visit_signalled defaults hung deaf (codes "90") hung_fuzz hung_budget hung_overdue hung_named
        refl).0
      (λ n. refl)

kills-visit_example :
    (is_fuzz hung.cmd ≡ true)
    × ((digits : Text) × (budget_digits hung.cmd ≡ some digits)
        × (is_overdue defaults (budget_of digits) deaf ≡ true))
    × ((is_empty (target_named hung.cmd) ≡ true)
        ⊎ (deaf.signalled ≡ false)
        ⊎ Survived defaults deaf)
kills-visit_example = kills-visit defaults hung deaf hung_killed

visit_signalled_example :
    (((n : ℕ) → polite.up n ≡ true) → kills (visit defaults hung polite) ≡ true)
    × ((m : ℕ)
        → m * second < defaults.term_wait
        → ((n : ℕ) → polite.up n ≡ ltb n m)
        → kills (visit defaults hung polite) ≡ false)
visit_signalled_example =
    visit_signalled defaults hung polite (codes "90") hung_fuzz hung_budget polite_overdue
      hung_named refl
