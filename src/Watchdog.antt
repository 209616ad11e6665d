-- ===== src/Watchdog.antt =====
-- internal/watchdog: the process that kills fuzz containers which outlive their own time budget.
mod Command
mod Sweep
mod Safety
mod Examples
pub use Command.*
pub use Sweep.*
