-- ===== src/Metaball.antt =====
-- app/ceremony/metaball.ts: the renderer of the vessel.
mod Defs
pub mod Lifecycle
mod Tests
unfoldable pub use Defs.*
