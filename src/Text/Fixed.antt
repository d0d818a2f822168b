-- ===== src/Text/Fixed.antt =====
-- `(c / 10 ^ d).toFixed(d)` prints the whole number c with its point moved, in spite of rounding.
use native.Mathlib.Nat.{div-eq_of_lt-le}
use moltenpour.Prelude.{ℕ, ◌+◌, ◌*◌, ◌^◌, ◌<◌, ◌≡◌, arith, ap}
use moltenpour.Number.{unit, of_ℕ, ◌/ₙ◌}
use moltenpour.Number.Quotient.{quotient_near}
use moltenpour.Text.Defs.{to_fixed, with_point, nearest_decimal}

nearest_decimal_near :
    (d c m : ℕ)
    → 2 * (m * 10 ^ d) < 2 * (c * unit) + unit
    → 2 * (c * unit) < 2 * (m * 10 ^ d) + unit
    → nearest_decimal d m ≡ c
unfolding nearest_decimal
nearest_decimal_near d c m above below = div-eq_of_lt-le (2 * unit) (omega arith) (omega arith)

pub to_fixed-quotient :
    (d c : ℕ)
    → 0 < 10 ^ d
    → 10 ^ d < 2 ^ 52
    → c < 2 ^ 51
    → to_fixed d (of_ℕ c /ₙ of_ℕ (10 ^ d)) ≡ with_point d c
unfolding to_fixed
to_fixed-quotient d c p scale small =
    let (m, e, above, below) = quotient_near c (10 ^ d) p (omega arith) scale small in
    rw e (ap (with_point d) (nearest_decimal_near d c m above below))
