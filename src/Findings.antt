-- ===== src/Findings.antt =====
-- internal/findings: the write-ups of findings, what they are counted under, and how each is checked
-- again. A directory is the list of its entries, and a write-up the list of its bytes.
mod Areas
mod Fields
mod Scan
mod Campaigns
mod Plans
mod Counted
mod Resolved
mod Planned
mod Examples
pub use Areas.*
pub use Fields.*
