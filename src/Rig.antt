-- ===== src/Rig.antt =====
-- app/ceremony/rig.ts: the simulation behind a pour, and the telemetry that it measures.
mod Float32
mod Defs
mod Step
pub mod Settled
pub mod Frozen
pub mod Tests
unfoldable pub use Float32.*
unfoldable pub use Defs.*
unfoldable pub use Step.*
