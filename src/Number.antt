-- ===== src/Number.antt =====
-- ECMAScript's Number type: IEEE 754 binary64, with round to nearest, ties to even. `Rounding` is
-- the rounding, `Value` the values and their order, `Ops` the operators and the functions of `Math`.
-- There is one zero: nothing that the program computes tells -0 from 0.
mod Rounding
mod Value
mod Ops
mod Elements
pub mod Order
pub mod Whole
pub mod Accuracy
pub mod Exact
pub mod Quotient
pub mod UpTo
pub mod Held
pub mod AtLeast
mod Tests
unfoldable pub use Rounding.*
unfoldable pub use Value.*
unfoldable pub use Ops.*
unfoldable pub use Elements.*
