-- ===== src/Plateau.antt =====
-- go/internal/plateau/plateau.go: what a watch reads while a campaign runs.
pub mod Tail
pub mod Follows
pub mod Reads
pub mod Scan
mod Examples
