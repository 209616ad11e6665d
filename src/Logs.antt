-- ===== src/Logs.antt =====
-- go/internal/logs: what a fuzzing run did, read from its log (logs.go), and how its coverage moved
-- (trajectory.go).
pub mod Stats
pub mod Parse
pub mod Totals
pub mod Sites
pub mod Trajectory
pub mod Sweep
pub mod Sections
pub mod Attributed
mod Examples
