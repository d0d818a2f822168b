-- ===== src/Tiers.antt =====
-- app/ceremony/tiers.ts: what a pour costs, how fast it flows, and the best that it can earn.
mod Defs
pub mod Prices
pub mod Reach
mod Examples
unfoldable pub use Defs.*
