-- ===== src/Certificate.antt =====
-- app/certificate: the sheet, the sheet on screen, and the proof of all rarities.
mod Frame
mod Parts
mod Sheet
mod View
mod Proof
pub mod Named
pub mod Printed
pub mod Alike
pub mod Said
pub mod Fits
pub mod Quiet
mod Tests
unfoldable pub use Frame.*
unfoldable pub use Parts.*
unfoldable pub use Sheet.*
unfoldable pub use View.*
unfoldable pub use Proof.*
