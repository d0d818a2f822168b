-- ===== src/Telemetry.antt =====
-- app/sigil/telemetry.ts: the bounds on what a client may claim about a pour, their laws, and runs.
pub mod Sim
mod Defs
pub mod Tiers
pub mod Ceilings
pub mod Clamp
pub mod Bounds
pub mod Tests
mod Examples
unfoldable pub use Defs.*
