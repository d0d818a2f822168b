-- ===== src/Shell.antt =====
-- app/App.tsx: the shell that holds the views, the seal and the notices.
mod Defs
mod Labels
mod Chrome
pub mod Seal
pub mod Invariant
pub mod Ends
mod Tests
unfoldable pub use Defs.*
unfoldable pub use Labels.*
unfoldable pub use Chrome.*
