-- ===== src/Text.antt =====
-- Text as lists of character codes, and how ECMAScript prints numbers.
mod Defs
pub mod Decimal
pub mod Fixed
mod Shortest
pub mod Tests
unfoldable pub use Defs.*
unfoldable pub use Shortest.*
