-- ===== src/Gate/Starvation.antt =====
-- go/internal/gate/gate.go: `Starvation`, which fails a target that did not really fuzz, and
-- `SlowUnits`, which fails a run whose slowest unit outran the timeout.
use pg_fuzz.Base.{
  ℕ, ◌+◌, ◌/◌, ◌*◌, ◌^◌, Bool, true, false, not, ◌&&◌, ◌||◌, List, [], ◌∷◌, Option, none, some,
  Text, Map, codes, lookup, ltb, ◌==◌, if◌then◌else◌, is_empty, eq, split_on, trim_space,
  has_prefix, cut_at, atoi,
}
use pg_fuzz.Float.{Float}
use pg_fuzz.Gate.Verdict.{
  Verdict, harness, fail_with, say, no_count, known_below, old_acknowledgement, below,
  libfuzzer_aborted, died_early, only_replay, slow_unit,
}
use pg_fuzz.Logs.Stats.{Stats, Startup, startup, replay_only, died}

-- `ackReason`: the second column of a row, if it says anything.
reason_in : List Text → Text
reason_in (target ∷ reason ∷ rest) =
    if is_empty (trim_space reason) then codes "no reason recorded" else trim_space reason
reason_in _ = codes "no reason recorded"

unfoldable pub ack_reason : Text → Text
unfolding reason_in
ack_reason row = reason_in (split_on b'\t' row)

-- A day in nanoseconds, and `StaleAck`, thirty of them.
abbrev pub day : ℕ
day = 24 * 3600 * 10 ^ 9

abbrev pub stale_ack : ℕ
stale_ack = 30 * day

is_died : Startup → Bool
is_died died = true
is_died _ = false

module _ (f : Float) where
  -- `time.Since` of the date in a row's fourth column, which `time.Parse` reads; nothing if it does
  -- not. A date to come has an age of nothing.
  module _ (age : Text → Option ℕ) where
    unfoldable pub old_ack : Stats f → Option ℕ → Verdict → Verdict
    old_ack s none v = v
    old_ack s (some d) v =
        if ltb stale_ack d then say (old_acknowledgement s.target (d / day)) v else v

    unfoldable pub below_floor : Stats f → ℕ → Option Text → Verdict → Verdict
    unfolding old_ack
    below_floor s floor none v = fail_with (below s.target s.execs floor) v
    below_floor s floor (some row) v =
        old_ack s (age row) (say (known_below s.target s.execs floor (ack_reason row)) v)

    unfoldable pub judge_floor : Stats f → ℕ → Map Text → Verdict → Verdict
    unfolding below_floor
    judge_floor s floor acks v =
        if ltb s.execs floor then below_floor s floor (lookup s.target acks) v else v

    unfoldable pub judge_abort : Stats f → Verdict → Verdict
    judge_abort s v = if s.aborted then fail_with (libfuzzer_aborted s.target) v else v

    unfoldable pub judge_death : Stats f → Verdict → Verdict
    unfolding is_died
    judge_death s v = if is_died (startup f s) then fail_with (died_early s.target) v else v

    unfoldable pub judge_replay : Stats f → Verdict → Verdict
    judge_replay s v =
        if replay_only f s
        then fail_with (only_replay s.target s.inited s.done s.new_units) v
        else v

    abbrev pub fresh : Verdict
    fresh = record { name = codes "starvation"; failed = false; detail = []; about = harness }

    -- `Starvation`.
    unfoldable pub starvation : Stats f → ℕ → Map Text → Verdict
    unfolding judge_floor judge_abort judge_death judge_replay
    starvation s floor acks =
        if (s.execs == 0) && (s.done == 0)
        then fail_with (no_count s.target (startup f s)) fresh
        else judge_replay s (judge_death s (judge_abort s (judge_floor s floor acks fresh)))

-- Upper case as lower case, which is all that `strings.EqualFold` does with `[libfuzzer]`.
lower : Text → Text
lower [] = []
lower (c ∷ cs) = (if ltb 64 c && ltb c 91 then c + 32 else c) ∷ lower cs

-- The number of a `timeout=` line, if it is above nothing.
timeout_value : Option ℕ → Option ℕ
timeout_value none = none
timeout_value (some n) = if n == 0 then none else some n

timeout_in : Option (Text × Text) → Option ℕ
unfolding timeout_value
timeout_in none = none
timeout_in (some (k, v)) =
    if eq (trim_space k) (codes "timeout") then timeout_value (atoi (trim_space v)) else none

-- The loop over the lines of an options file; the flag is `inSection`.
unfoldable pub scan_options : Bool → List Text → ℕ
unfolding timeout_in lower
scan_options inside [] = 0
scan_options inside (raw ∷ lines) =
    let line = trim_space raw in
    let after_header = scan_options (eq (lower line) (codes "[libfuzzer]")) lines in
    let rest = scan_options inside lines in
    let found : ℕ = elim (timeout_in (cut_at b'=' line)) [ none ↦ rest | some n ↦ n ] in
    if has_prefix line (codes "[")
    then after_header
    else if not inside || is_empty line || has_prefix line (codes "#")
    then rest
    else found

-- `optionsTimeout`, of the file's content, if it can be read.
unfoldable pub options_timeout : Option Text → ℕ
options_timeout none = 0
options_timeout (some content) = scan_options false (split_on b'\n' content)

module _ (f : Float) where
  -- The limit that `SlowUnitsIn` compares with. `build_dir` is whether a build directory is given,
  -- and `options` is the content of the target's options file in it.
  unfoldable pub slow_limit : Stats f → Bool → Option Text → ℕ
  slow_limit s build_dir options =
      let given =
        if (s.timeout == 0) && build_dir && not (is_empty s.target)
        then options_timeout options
        else s.timeout in
      if given == 0 then 25 else given

  -- `SlowUnitsIn`.
  unfoldable pub slow_units_in : Stats f → Bool → Option Text → Verdict
  slow_units_in s build_dir options =
      let limit = slow_limit s build_dir options in
      let v : Verdict = record {
        name = codes "slow-units";
        failed = false;
        detail = [];
        about = harness;
      } in
      if ltb limit s.slowest_unit then fail_with (slow_unit s.target s.slowest_unit limit) v else v

  -- `SlowUnits`: no build directory.
  unfoldable pub slow_units : Stats f → Verdict
  slow_units s = slow_units_in s false none
