-- ===== src/Fuzz.antt =====
-- go/internal/fuzz: the budgets of the targets, and the pool that a soak runs them in.
pub mod Budgets
pub mod Schedule
pub mod Pool
pub mod Progress
mod Examples
