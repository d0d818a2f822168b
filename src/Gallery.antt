-- ===== src/Gallery.antt =====
-- app/collection: the gallery.
mod Head
mod Defs
pub mod Register
mod Tests
unfoldable pub use Head.*
unfoldable pub use Defs.*
