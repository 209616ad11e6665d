-- ===== src/Campaign.antt =====
-- go/internal/campaign: the order in which a campaign fuzzes, and the series that it writes.
pub mod Order
pub mod Ranked
pub mod Rotation
pub mod Rounds
pub mod Late
pub mod Series
mod Examples
