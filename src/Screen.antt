-- ===== src/Screen.antt =====
-- app/ceremony/PourScreen.tsx: the stream that the customer opens and shuts, and its phases.
mod Defs
mod Labels
mod Stage
mod Vessel
mod Schedule
mod Spec
mod Band
mod Card
mod Page
mod Readout
pub mod Offers
pub mod Phases
pub mod Kept
mod Begun
pub mod Fresh
mod Tests
unfoldable pub use Defs.*
unfoldable pub use Labels.*
unfoldable pub use Stage.*
unfoldable pub use Vessel.*
unfoldable pub use Schedule.*
unfoldable pub use Spec.*
unfoldable pub use Band.*
unfoldable pub use Card.*
unfoldable pub use Page.*
unfoldable pub use Readout.*
