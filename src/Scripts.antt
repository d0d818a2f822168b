-- ===== src/Scripts.antt =====
-- scripts: the checks that drive a browser over the certificate, and the search for the browser.
mod Chrome
mod Measure
mod Verdicts
mod Runs
pub mod Closing
pub mod Order
pub mod Sound
mod Tests
unfoldable pub use Chrome.*
unfoldable pub use Measure.*
unfoldable pub use Verdicts.*
unfoldable pub use Runs.*
