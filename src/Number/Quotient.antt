-- ===== src/Number/Quotient.antt =====
-- The floor of a rounded quotient of whole numbers is their whole quotient: rounding never carries
-- a quotient past the next whole number.
use native.Mathlib.Nat.{
  mul-pos, div-lt_iff_lt-mul, mul-le-mul_right, mul-le-mul_left, div-add-mod', mod-lt,
  div-eq_of_lt-le, le_of_mul-le-mul_right, lt_of_mul-lt-mul_right, lt-div-mul-add, div-mul-le_self,
  mul_assoc, div-le_self,
}
use native.Mathlib.Decide.{dec_lt}
use moltenpour.Prelude.{
  false, le→ltb, subst, ℕ, zero, suc, ◌+◌, ◌-◌, ◌*◌, ◌/◌, ◌%◌, ◌^◌, ◌≤◌, ◌<◌, ◌≡◌, arith, ap, sym,
  ◌∙◌, pow-add, pow-pos, pos,
}
use moltenpour.Number.Rounding.{bit_length_from, bit_length, nearest, round_at, round_ratio}
use moltenpour.Number.Value.{fin, unit, overflow, double, of_ℕ, ◌<ₙ◌}
use moltenpour.Number.Ops.{◌/ₙ◌, div_fin, floor}
use moltenpour.Number.Order.{product_pos}
use moltenpour.Number.Whole.{unit-pos}
use moltenpour.Number.Accuracy.{nearest_error, nearest_bounds, two-pow-bit_length_from}
use moltenpour.Number.Exact.{
  exponent, bit_length-le, pow_53_unit, pos_mag-fin, unit_split, unit-overflow,
}

pub le-quotient : (c n d : ℕ) → 0 < d → c * d ≤ n → c ≤ n / d
le-quotient c n d h le = elim (dec_lt (n / d) c) [
  | yes p ↦ absurd (omega (arith, (div-lt_iff_lt-mul h).0 p))
  | no p ↦ omega arith
]

-- Twice the error of a rounding is at most one step.
pub round_at_error :
    (e n d : ℕ)
    → 0 < d
    → (2 * (round_at e n d * d) ≤ 2 * n + d * 2 ^ e)
      × (2 * n ≤ 2 * (round_at e n d * d) + d * 2 ^ e)
unfolding round_at
round_at_error e n d h =
    let D = d * 2 ^ e in
    let step : 0 < D = mul-pos h (pow-pos e) in
    let error = nearest_error (n / D) (n % D) D (mod-lt n step) in
    let whole : n / D * D + n % D ≡ n = div-add-mod' n D in
    let k = nearest (n / D) (n % D) D in
    let same : k * 2 ^ e * d ≡ k * D = omega arith in (omega arith, omega arith)

-- A multiple of the step that is at most the ratio is at most what it rounds to.
pub le-round_at : (e c n d : ℕ) → 0 < d → c * 2 ^ e * d ≤ n → c * 2 ^ e ≤ round_at e n d
unfolding round_at
le-round_at e c n d h le =
    let D = d * 2 ^ e in
    let below : c ≤ n / D = le-quotient c n D (mul-pos h (pow-pos e)) (omega arith) in
    let k = nearest (n / D) (n % D) D in
    mul-le-mul_right (2 ^ e) (omega (arith, below, (nearest_bounds (n / D) (n % D) D).0))

-- The step is at most 2 ^ -52 of the value, or one unit.
pub step_le : (q : ℕ) → 2 ^ exponent q * 2 ^ 53 ≤ 2 * q + 2 ^ 53
unfolding bit_length bit_length_from
step_le zero = omega arith
step_le (suc q) = elim (dec_lt 53 (bit_length (suc q))) [
  | yes long ↦
      let e = exponent (suc q) in
      let total : e + 53 ≡ bit_length (suc q) = omega arith in
      omega (
        arith,
        pow-add e 53,
        ap (λ (t : ℕ). 2 ^ t) total,
        two-pow-bit_length_from 13 (suc q) (omega arith),
      )
  | no short ↦
      let none : exponent (suc q) ≡ 0 = omega arith in
      omega (arith, ap (λ (t : ℕ). 2 ^ t * 2 ^ 53) none)
]

pub unit-large : 2 ^ 105 ≤ unit
unfolding unit
unit-large = omega arith

pub div_fin_pos : (a m : ℕ) → 0 < m → div_fin (pos a) (pos m) ≡ double (pos (a * unit)) m
unfolding div_fin
div_fin_pos a zero h = absurd (omega arith)
div_fin_pos a (suc m) h = rw (product_pos a unit)

module _ (a b : ℕ) (b_pos : 0 < b) (a_small : a < 2 ^ 52) (b_small : b < 2 ^ 52) where
  abbrev numerator : ℕ
  numerator = a * unit * unit

  abbrev denominator : ℕ
  denominator = b * unit

  abbrev step : ℕ
  step = 2 ^ exponent (numerator / denominator)

  denominator-pos : 0 < denominator
  denominator-pos = mul-pos b_pos unit-pos

  -- The quotient in units fits 1127 bits, so that the step divides the unit.
  exponent-le : exponent (numerator / denominator) ≤ 1074
  exponent-le =
      let one : unit * unit ≤ b * unit * unit =
        mul-le-mul_right unit (omega (arith, mul-le-mul_right unit b_pos)) in
      let below : numerator < 2 ^ 1127 * denominator = omega (
        arith,
        pow_53_unit,
        ap (λ (t : ℕ). t * denominator) pow_53_unit,
        one,
        mul-le-mul_right (unit * unit) a_small,
        mul-le-mul_left (2 ^ 53) one,
        mul-pos unit-pos unit-pos,
      ) in
      omega (arith, bit_length-le _ 1127 ((div-lt_iff_lt-mul denominator-pos).1 below))

  steps_le : b * step * 2 ^ 53 ≤ 2 * (a * unit) + 2 ^ 53 * b
  steps_le =
      let q = numerator / denominator in
      let within : q * denominator ≤ numerator = div-mul-le_self numerator denominator in
      let scaled : step * 2 ^ 53 * denominator ≤ (2 * q + 2 ^ 53) * denominator =
        mul-le-mul_right denominator (step_le q) in
      let total : b * step * 2 ^ 53 * unit ≤ (2 * (a * unit) + 2 ^ 53 * b) * unit = omega arith in
      le_of_mul-le-mul_right total unit-pos

  -- b steps are fewer than two units.
  steps-lt : b * step < 2 * unit
  steps-lt = omega (arith, steps_le, mul-le-mul_right unit a_small, unit-large)

  abbrev rounded : ℕ
  rounded = round_at (exponent (numerator / denominator)) numerator denominator

  rounded-lt : rounded < (a / b + 1) * unit
  rounded-lt =
      let error =
        (round_at_error (exponent (numerator / denominator)) numerator denominator
          denominator-pos).0 in
      let scaled : (2 * (rounded * b)) * unit ≤ (2 * (a * unit) + b * step) * unit =
        omega (arith, error) in
      let near : 2 * (rounded * b) ≤ 2 * (a * unit) + b * step =
        le_of_mul-le-mul_right scaled unit-pos in
      let next : a + 1 ≤ (a / b + 1) * b = omega (arith, lt-div-mul-add {a = a} b_pos) in
      let far : (a + 1) * unit ≤ (a / b + 1) * b * unit = mul-le-mul_right unit next in
      let strict : rounded * b < (a / b + 1) * unit * b = omega (arith, near, steps-lt, far) in
      lt_of_mul-lt-mul_right b strict

  le-rounded : a / b * unit ≤ rounded
  le-rounded =
      let e = exponent (numerator / denominator) in
      let split : a / b * unit ≡ a / b * 2 ^ (1074 - e) * 2 ^ e =
        ap (λ (t : ℕ). a / b * t) (unit_split e exponent-le)
        ∙ sym (mul_assoc (a / b) (2 ^ (1074 - e)) (2 ^ e)) in
      let below : a / b * unit * denominator ≤ numerator =
        omega (arith, mul-le-mul_right (unit * unit) (div-mul-le_self a b)) in
      rw split (
        le-round_at e (a / b * 2 ^ (1074 - e)) numerator denominator denominator-pos
          (subst (λ t. t * denominator ≤ numerator) split below))

  rounded-overflow : rounded < overflow
  rounded-overflow =
      let small : a / b + 1 ≤ 2 ^ 53 = omega (arith, div-le_self a b) in
      omega (arith, rounded-lt, mul-le-mul_right unit small, unit-overflow)

  quotient_fin : of_ℕ a /ₙ of_ℕ b ≡ fin (pos rounded)
  quotient_fin =
      unfold ◌/ₙ◌ of_ℕ in
      (div_fin_pos (a * unit) denominator denominator-pos
        ∙ (unfold double round_ratio in pos_mag-fin rounded rounded-overflow))

  pub floor_quotient : floor (of_ℕ a /ₙ of_ℕ b) ≡ of_ℕ (a / b)
  floor_quotient =
      rw quotient_fin (unfold floor of_ℕ in rw (div-eq_of_lt-le unit le-rounded rounded-lt))

  step-lt : a < 2 ^ 51 → b * step < unit
  step-lt small = omega (arith, steps_le, mul-le-mul_right unit small, unit-large)

  -- The quotient, times b, is within half a unit of a.
  pub quotient_near :
      a < 2 ^ 51
      → (m : ℕ) × (of_ℕ a /ₙ of_ℕ b ≡ fin (pos m))
        × (2 * (m * b) < 2 * (a * unit) + unit)
        × (2 * (a * unit) < 2 * (m * b) + unit)
  quotient_near small =
      let e = exponent (numerator / denominator) in
      let error = round_at_error e numerator denominator denominator-pos in
      let above : 2 * (rounded * b) * unit ≤ (2 * (a * unit) + b * step) * unit =
        omega (arith, error.0) in
      let below : 2 * (a * unit) * unit ≤ (2 * (rounded * b) + b * step) * unit =
        omega (arith, error.1) in
      (
        rounded,
        quotient_fin,
        omega (arith, le_of_mul-le-mul_right above unit-pos, step-lt small),
        omega (arith, le_of_mul-le-mul_right below unit-pos, step-lt small),
      )

  -- A quotient of a by no more than a is at least one.
  pub one-le-quotient : b ≤ a → (of_ℕ a /ₙ of_ℕ b) <ₙ of_ℕ 1 ≡ false
  one-le-quotient h =
      let whole : 1 ≤ a / b = le-quotient 1 a b b_pos (omega (arith, h)) in
      let above : 1 * unit ≤ rounded = omega (arith, le-rounded, mul-le-mul_right unit whole) in
      rw quotient_fin
        (unfold ◌<ₙ◌ of_ℕ in le→ltb (rounded + 0) (1 * unit + 0) (omega (arith, above)))
