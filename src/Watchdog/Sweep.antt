-- ===== src/Watchdog/Sweep.antt =====
-- `sweep` of internal/watchdog/watchdog.go, as the calls of docker that it makes and the lines that
-- it logs, in their order. What docker answers is an argument: whether the signal was delivered,
-- whether the container is still listed at the n-th time of asking, and whether the kill succeeded.
-- A `time.Duration` is a count of nanoseconds as the bit pattern of an `int64`.
use pg_fuzz.Base.{
  Text, List, [], ◌∷◌, Bool, Option, none, some, is_empty, length, leb, ltb, ◌++◌, ◌+◌, ◌*◌, ◌^◌,
  ◌/◌, ◌%◌, not, if◌then◌else◌, ℕ, zero, suc, ◌==◌,
}
use pg_fuzz.Watchdog.Command.{is_fuzz, budget_digits, budget_of, target_named}

pub record Options : Type 0 where
  pub grace : ℕ
  pub term_wait : ℕ
  pub interval : ℕ
  pub beat : ℕ

abbrev pub second : ℕ
second = 1000 * 1000 * 1000

abbrev or_default : ℕ → ℕ → ℕ
or_default d n = if n == 0 then d else n

-- The defaults of `Run`.
unfoldable pub with_defaults : Options → Options
with_defaults o = record {
  grace = or_default (300 * second) o.grace;
  term_wait = or_default (20 * second) o.term_wait;
  interval = or_default (60 * second) o.interval;
  beat = or_default (3600 * second) o.beat;
}

pub record Container : Type 0 where
  pub id : Text
  pub name : Text
  pub cmd : Text

pub record Answers : Type 0 where
  pub age : ℕ
  pub signalled : Bool
  pub up : ℕ → Bool
  pub killed : Bool

pub data Event : Type 0 where
  overdue : Text → Text → ℕ → ℕ → Event
  sigterm : Text → Text → Event
  asked : Text → Event
  exited : Text → ℕ → Event
  escalating : ℕ → Event
  unsignalled : Text → Event
  sigkill : Text → Event
  killed : Text → Event
  kill_failed : Text → Event

-- `a <= b` of two `int64`.
unfoldable pub int_leb : ℕ → ℕ → Bool
int_leb a b = leb ((a + 2 ^ 63) % 2 ^ 64) ((b + 2 ^ 63) % 2 ^ 64)

-- `time.Duration(budget)*time.Second + o.Grace`.
unfoldable pub deadline : ℕ → ℕ → ℕ
deadline budget grace = (budget * second + grace) % 2 ^ 64

-- The wait for a container that was signalled: the seconds waited and the number of the next question,
-- or none where the fuel is spent.
unfoldable pub wait_down : ℕ → ℕ → (ℕ → Bool) → ℕ → Option (ℕ × ℕ)
wait_down zero term_wait up waited = none
wait_down (suc fuel) term_wait up waited =
    let rest = wait_down fuel term_wait up (suc waited) in
    if ltb (waited * second) term_wait
    then (if up waited then rest else some (waited, suc waited))
    else some (waited, waited)

-- A round more than there are seconds in the wait.
abbrev pub wait_fuel : ℕ → ℕ
wait_fuel term_wait = suc (suc (term_wait / second))

abbrev pub kill : Container → Answers → List Event
kill c a = sigkill c.id ∷ (if a.killed then killed c.name else kill_failed c.name) ∷ []

abbrev after_wait : Container → Answers → Option (ℕ × ℕ) → List Event
after_wait c a none = []
after_wait c a (some (waited, next)) =
    if not (a.up next)
    then exited c.name (waited * second) ∷ []
    else escalating (waited * second) ∷ kill c a

unfoldable pub stop_container : Options → Container → Text → Answers → List Event
stop_container o c target a =
    if is_empty target
    then unsignalled target ∷ kill c a
    else if a.signalled
    then sigterm c.id target
      ∷ asked target
      ∷ after_wait c a (wait_down (wait_fuel o.term_wait) o.term_wait a.up 0)
    else sigterm c.id target ∷ unsignalled target ∷ kill c a

-- Whether the container's budget and the grace are over.
unfoldable pub is_overdue : Options → ℕ → Answers → Bool
is_overdue o budget a = not (int_leb a.age (deadline budget o.grace))

abbrev with_budget : Options → Container → Answers → Option Text → List Event
with_budget o c a none = []
with_budget o c a (some digits) =
    if is_overdue o (budget_of digits) a
    then overdue c.name (target_named c.cmd) a.age (budget_of digits)
      ∷ stop_container o c (target_named c.cmd) a
    else []

unfoldable pub visit : Options → Container → Answers → List Event
visit o c a = if is_fuzz c.cmd then with_budget o c a (budget_digits c.cmd) else []

unfoldable pub count_seen : List (Container × Answers) → ℕ
count_seen [] = 0
count_seen ((c, a) ∷ cs) = if is_fuzz c.cmd then suc (count_seen cs) else count_seen cs

unfoldable pub events : Options → List (Container × Answers) → List Event
events o [] = []
events o ((c, a) ∷ cs) = visit o c a ++ events o cs

-- The events, the number of fuzz containers and that of all. Where docker cannot list them, an error.
unfoldable pub sweep_containers :
    Options → Option (List (Container × Answers)) → Option (List Event × ℕ × ℕ)
sweep_containers o none = none
sweep_containers o (some cs) = some (events o cs, count_seen cs, length cs)
