-- ===== src/Rarity.antt =====
-- app/sigil/rarity.ts: the score and the classification, the integers behind them, and runs.
mod Defs
pub mod Integer
pub mod Refinement
pub mod Bands
pub mod Hashed
pub mod Tests
mod Examples
unfoldable pub use Defs.*
