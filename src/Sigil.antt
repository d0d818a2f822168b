-- ===== src/Sigil.antt =====
-- app/sigil/sigil.ts: the seed hash, the splatter geometry, and its digest.
mod Uint32
mod Hash
mod Rng
mod Geometry
mod Digest
mod Svg
pub mod HashLaws
pub mod Draws
pub mod Reach
pub mod Angles
pub mod Inside
pub mod Stream
pub mod Silent
mod Tests
mod Examples
mod Drawings
pub use Uint32.*
unfoldable pub use Hash.*
unfoldable pub use Rng.*
unfoldable pub use Geometry.*
unfoldable pub use Digest.*
unfoldable pub use Svg.*
