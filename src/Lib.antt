-- ===== src/Lib.antt =====
-- pg-fuzz drives PostgreSQL fuzzers in rounds and judges what each round did. This library models
-- the part of go/internal that judges, and what it reads. Every function recurs on its input,
-- but for two that run on fuel: the decimal form of a number in Base.Fields, on one more than the
-- number, which has no more digits than that, and the wait of the watchdog, on a round more than there
-- are seconds in it.
--
-- How the parts meet: a round leaves one libFuzzer log for each target. `logs.Parse` makes a `Stats`
-- of it, which the gates judge, and from which the observations of the ratchet are taken; the ratchet
-- judges these against a baseline, and raises the baseline by them.
--
-- Base: Go's strings as lists of bytes, its maps as association lists, and `sort.Slice`.
-- Float: Go's float64, as an interface, with two instances that the examples run on.
-- Ratchet: go/internal/ratchet/ratchet.go. Check is `Check` and what it consists of, Update is
--   `Baseline.Update`; Judged, Floors, Shift, Raises and Rates are the proofs.
-- Logs: go/internal/logs/logs.go and trajectory.go. Stats and Parse are `Stats` and `Parse`, on
--   lines as the regular expressions match them; Trajectory is `Summarise`; Totals, Sites,
--   Trajectory.Order and Trajectory.Gains are the proofs.
-- Gate: go/internal/gate/gate.go. Starvation, Ubsan and Rounds are its gates; Starved, Sites
--   and Reports are proofs.
-- Gate.Series: go/internal/gate/ubsanseries.go, with the proofs in Gate.Quiet and Gate.Withdrawals.
-- Plateau: go/internal/plateau/plateau.go. Tail is `LogTail.Read` on what one call finds of the file,
--   Scan is `ScanCov` and `Credited`; Follows and Reads are proofs.
-- Corpus: go/internal/corpus/autocap.go. Sweep is `ParseSweepForCap`, Caps is `Autocap`, Tune is
--   `Tune`; Sections, Capped and Tuned are proofs.
-- Campaign: go/internal/campaign. Order is order.go; Rotation is `rotate` and the end of `runOne` of
--   run.go; Rounds is the loop of a round in `Run`, and `Sweep` of go/internal/fuzz/fuzz.go; Series
--   is the series of campaign.go; Ranked is the proofs on Order, and Late on
--   Rounds.
-- Expect: go/internal/expect/expect.go.
-- Breakdown: go/internal/breakdown/breakdown.go, of which Scan is `scanLog`; Credits is the proofs.
-- Fuzz: go/internal/fuzz. Budgets is budget.go, Schedule is `schedule` of soak.go as a step relation,
--   Pool and Progress are proofs on it.
-- Ratchet.Reseed: `Reseed` of go/internal/ratchet/analysis.go, with the proofs in Ratchet.Moved and
--   Ratchet.Reasons; Ratchet.Show is the helpers of the reports in that file, and Ratchet.Commas the
--   proofs on `commaInt`.
-- Workspace: go/internal/workspace/workspace.go. Conf is `Load` and `Key`, Edit is `Set`, Image is
--   `BaseOSVersion`; Written and Rewrite are the proofs on what is read after a write.
-- Watchdog: go/internal/watchdog/watchdog.go. Command is what `sweep` reads from a command line, Sweep
--   is `sweep` as the list of its calls and lines, on the answers of docker; Safety is the proofs. The
--   wait for a container runs on fuel, a round more than there are seconds in the wait.
-- Findings: go/internal/findings. Areas and Fields are findings.go, Scan is findings.go and meta.go,
--   Campaigns is campaign.go and Plans is reverify.go; Counted, Resolved and Planned are the proofs.
-- Census: go/internal/census. Extract, Builder, Read and Rows are census.go, on what its regular
--   expressions find in a line; Split is `Sanitizer` and `Annotate` of summary.go; Hits and Leaks are
--   the proofs.
-- Logs.Sweep: go/internal/logs/sweep.go, with the proofs in Logs.Sections and Logs.Attributed.
-- Ratchet.Activity, Ratchet.Distribution, Ratchet.Variance and Ratchet.Cusum: the functions of the same
--   names of go/internal/ratchet/analysis.go, with the proofs in Ratchet.Kinds, Ratchet.Placed,
--   Ratchet.Swings and Ratchet.Tripped. What `Cusum` uses of package math is a parameter.
--
-- Not modelled: files, processes, containers and locks, Go's regexp and encoding/json, the wording
-- of messages, and the packages that only render reports or call other programs. Counts are natural
-- numbers, since the program reads them from digits; overflow at 63 bits is not modelled.
pub mod Base
pub mod Float
pub mod Ratchet
pub mod Logs
pub mod Gate
pub mod Breakdown
pub mod Plateau
pub mod Corpus
pub mod Campaign
pub mod Expect
pub mod Fuzz
pub mod Workspace
pub mod Watchdog
pub mod Findings
pub mod Census
