-- ===== src/Breakdown.antt =====
-- go/internal/breakdown/breakdown.go: which component the crashes of a target are in.
pub mod Scan
pub mod Credits
mod Examples
