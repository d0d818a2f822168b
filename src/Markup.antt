-- ===== src/Markup.antt =====
-- React's elements, as the components of app/ return them: data, and what is read off it.
mod Defs
mod Read
pub mod Laws
unfoldable pub use Defs.*
unfoldable pub use Read.*
