-- ===== src/Census.antt =====
-- internal/census: crash reports grouped into distinct signatures.
mod Extract
mod Builder
mod Read
mod Rows
mod Split
mod Hits
mod Leaks
mod Examples
pub use Extract.*
pub use Builder.*
