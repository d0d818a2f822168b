-- ===== src/Record.antt =====
-- app/pour/record.ts: the pour record, what a mint asks for, and how a record is printed.
mod Defs
pub mod Printed
mod Tests
unfoldable pub use Defs.*
