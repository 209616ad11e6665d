-- ===== src/Ratchet.antt =====
-- go/internal/ratchet: the record that each target is judged against (ratchet.go), and the analyses of
-- its history (analysis.go). Of the first, `Defs` has the data, `Check` the judgement of a round and
-- `Update` what a round does to the record, and the modules to `Rates` prove things of them. Of the
-- second, `Show`, `Variance`, `Activity`, `Distribution`, `Cusum` and `Reseed` are the code, each before
-- the modules that prove things of it.
pub mod Defs
pub mod Check
pub mod Judged
pub mod Update
pub mod Floors
pub mod Shift
pub mod Raises
pub mod Rates
pub mod Show
pub mod Commas
pub mod Variance
pub mod Swings
pub mod Activity
pub mod Kinds
pub mod Distribution
pub mod Placed
pub mod Cusum
pub mod Tripped
pub mod Reseed
pub mod Moved
pub mod Reasons
mod Examples
mod HistoryExamples
