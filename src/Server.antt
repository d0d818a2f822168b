-- ===== src/Server.antt =====
-- api: the ledger server, in Go. `Sigil` is api/sigil, the half of the pipeline that the server repeats.
mod Floats
mod Sigil
mod Pour
mod Store
mod Handlers
pub mod Ledger
pub mod Register
pub mod Once
pub mod Owners
pub mod Alike
pub mod Words
pub mod Halves
pub mod Rounds
pub mod Seeds
pub mod Scored
pub mod Preview
mod Tests
unfoldable pub use Floats.*
