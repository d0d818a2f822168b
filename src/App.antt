-- ===== src/App.antt =====
-- app/App.tsx: the page that the shell shows.
mod Defs
pub mod Offers
mod Tests
unfoldable pub use Defs.*
