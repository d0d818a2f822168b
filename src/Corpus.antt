-- ===== src/Corpus.antt =====
-- app/sigil/gencorpus.ts: the rows that referee the two implementations.
mod Defs
pub mod Rows
mod Tests
unfoldable pub use Defs.*
