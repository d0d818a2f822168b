-- ===== src/Api.antt =====
-- app/pour/api.ts: the client of the ledger API.
mod TextEq
mod Json
mod Errors
mod Fetch
mod Guard
mod Uri
mod Calls
mod Pauses
pub mod Retry
pub mod Shapes
mod Passes
pub mod Accepts
pub mod Answers
pub mod Segment
mod Tests
pub use Json.*
unfoldable pub use TextEq.*
unfoldable pub use Errors.*
unfoldable pub use Fetch.*
unfoldable pub use Guard.*
unfoldable pub use Uri.*
unfoldable pub use Calls.*
