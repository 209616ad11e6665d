-- ===== src/Gate.antt =====
-- go/internal/gate: the checks that fail a round (gate.go) and the retirement of accepted sites
-- (ubsanseries.go).
pub mod Verdict
pub mod Starvation
pub mod Starved
pub mod Ubsan
pub mod Sites
pub mod Reports
pub mod Rounds
pub mod Series
pub mod Quiet
pub mod Withdrawals
mod Examples
