-- ===== src/Design.antt =====
-- app/design: the tokens that every sheet and screen is drawn with, and the metal behind the page.
mod Tokens
mod Background
pub mod Still
mod Tests
unfoldable pub use Tokens.*
unfoldable pub use Background.*
