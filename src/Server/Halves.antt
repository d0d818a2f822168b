-- ===== src/Server/Halves.antt =====
-- A half more than a double, in api/sigil/sigil.go's `jsRound`: how far the sum stays below the next whole
-- number.
use native.Mathlib.Nat.{mul-le-mul_right, pow-le-pow_right, lt_of_mul-lt-mul_right}
use native.Mathlib.Decide.{dec_le}
use moltenpour.Prelude.{
  ℕ, suc, ◌+◌, ◌-◌, ◌*◌, ◌^◌, ◌≤◌, ◌<◌, ◌≡◌, ◌≢◌, refl, ap, ◌∙◌, arith, pow-add, pow-pos,
}
use moltenpour.Number.{unit, bit_length}
use moltenpour.Number.Accuracy.{two-pow-bit_length_from}
use moltenpour.Number.Exact.{exponent, bit_length-le, unit_split}

-- The double next below a half, 0.49999999999999994.
abbrev pub below_half : ℕ
below_half = (2 ^ 53 - 1) * 2 ^ 1020

half_split : (e : ℕ) → e ≤ 1073 → 2 ^ 1073 ≡ 2 ^ (1073 - e) * 2 ^ e
half_split e h =
    let same : 1073 ≡ (1073 - e) + e = omega arith in
    ap (λ (t : ℕ). 2 ^ t) same ∙ pow-add (1073 - e) e

pub unit_value : unit ≡ 2 * 2 ^ 1073
unfolding unit
unit_value = refl

-- Two multiples of a step are a step apart.
apart : (s a b : ℕ) → a * s < b * s → a * s + s ≤ b * s
apart s a b h =
    let less : suc a ≤ b = lt_of_mul-lt-mul_right s h in
    let steps : suc a * s ≤ b * s = mul-le-mul_right s less in omega (arith, steps)

-- How far a sum stays below the next whole number, by half a step of its rounding.
module _ (c e' k : ℕ) (c_small : c < 2 ^ 53) (k_above : c * 2 ^ e' + 2 ^ 1073 < suc k * unit) where
  abbrev sum : ℕ
  sum = c * 2 ^ e' + 2 ^ 1073

  -- A step that divides the summands.
  fine_gap : (e : ℕ) → e ≤ 1073 → e ≤ e' → 2 * sum + 2 ^ e < 2 * (suc k * unit)
  fine_gap e small le =
      let split : 2 ^ e' ≡ 2 ^ (e' - e) * 2 ^ e =
        ap (λ (t : ℕ). 2 ^ t) (add-back e e' le) ∙ pow-add (e' - e) e in
      let a = c * 2 ^ (e' - e) + 2 ^ (1073 - e) in
      let b = suc k * 2 ^ (1074 - e) in
      let left : sum ≡ a * 2 ^ e = omega (arith, ap (λ (t : ℕ). c * t) split, half_split e small) in
      let right : suc k * unit ≡ b * 2 ^ e =
        omega (arith, ap (λ (t : ℕ). suc k * t) (unit_split e (omega arith))) in
      let gap = apart (2 ^ e) a b (omega (arith, left, right, k_above)) in
      omega (arith, left, right, gap, pow-pos e)
    where
      add-back : (e e' : ℕ) → e ≤ e' → e' ≡ (e' - e) + e
      add-back e e' le = omega arith

  -- A step that is coarser than the last digit, so that the sum is the longer of the two.
  below_step : (e : ℕ) → e' < e → c * 2 ^ e' < 2 ^ (52 + e)
  below_step e lt =
      let digits : suc c * 2 ^ e' ≤ 2 ^ 53 * 2 ^ e' = mul-le-mul_right (2 ^ e') c_small in
      let longer : 2 ^ (53 + e') ≤ 2 ^ (52 + e) = pow-le-pow_right (omega arith) (omega arith) in
      omega (arith, digits, longer, pow-add 53 e', pow-pos e')

  step_half : (e : ℕ) → e ≤ 1073 → 2 ^ e ≤ 2 ^ 1073
  step_half e h = pow-le-pow_right (omega arith) h

  carried_gap :
      (e : ℕ)
      → e ≤ 1073
      → e' < e
      → 1022 ≤ e
      → 2 ^ (52 + e) ≤ sum
      → k * unit ≤ sum
      → 2 * sum + 2 ^ e < 2 * (suc k * unit)
  carried_gap e small lt large long k_below =
      let whole : 2 ^ (52 + e) ≡ 2 ^ (e - 1022) * unit =
        ap (λ (t : ℕ). 2 ^ t) (shift e large)
        ∙ pow-add (e - 1022) 1074
        ∙ ap (λ (t : ℕ). 2 ^ (e - 1022) * t) unit_is in
      let j = 2 ^ (e - 1022) in
      let reached : j < suc k = lt_of_mul-lt-mul_right unit (omega (arith, whole, long, k_above)) in
      let floor_below : j * unit ≤ k * unit = mul-le-mul_right unit (omega (arith, reached)) in
      omega (arith, whole, floor_below, below_step e lt, step_half e small, unit_value, pow-pos e)
    where
      shift : (e : ℕ) → 1022 ≤ e → 52 + e ≡ (e - 1022) + 1074
      shift e h = omega arith

      unit_is : 2 ^ 1074 ≡ unit
      unit_is = unfold unit in refl

  -- Below one, where only the double next below a half is carried over.
  low_gap :
      (e : ℕ) → e ≤ 1021 → e' < e → c * 2 ^ e' ≢ below_half → 2 * sum + 2 ^ e < 2 * (suc k * unit)
  low_gap e small lt other =
      let least : unit ≤ suc k * unit = omega (arith, mul-le-mul_right unit (one_le k)) in
      let step : 2 ^ e ≤ 2 ^ 1021 = pow-le-pow_right (omega arith) small in
      elim (dec_le e' 1019) [
        | yes short ↦
            let digits : suc c * 2 ^ e' ≤ 2 ^ 53 * 2 ^ e' = mul-le-mul_right (2 ^ e') c_small in
            let power : 2 ^ e' ≤ 2 ^ 1019 = pow-le-pow_right (omega arith) short in
            omega (arith, least, step, digits, power, unit_value, pow-pos e')
        | no long ↦
            let last : e' ≡ 1020 = omega (arith, long) in
            let same : c * 2 ^ e' ≡ c * 2 ^ 1020 = ap (λ (t : ℕ). c * 2 ^ t) last in
            let fewer : c ≤ 2 ^ 53 - 2 = fewer_digits same other in
            let digits : c * 2 ^ 1020 ≤ (2 ^ 53 - 2) * 2 ^ 1020 =
              mul-le-mul_right (2 ^ 1020) fewer in
            omega (arith, least, step, digits, same, unit_value)
      ]
    where
      one_le : (k : ℕ) → 1 ≤ suc k
      one_le k = omega arith

      fewer_digits : c * 2 ^ e' ≡ c * 2 ^ 1020 → c * 2 ^ e' ≢ below_half → c ≤ 2 ^ 53 - 2
      fewer_digits same other = elim (dec_le c (2 ^ 53 - 2)) [
        | yes p ↦ p
        | no p ↦
            let all : c ≡ 2 ^ 53 - 1 = omega (arith, p, c_small) in
            absurd (other (same ∙ ap (λ (t : ℕ). t * 2 ^ 1020) all))
      ]

  -- In every case, for the step that the sum is rounded with.
  pub sum_gap :
      c * 2 ^ e' ≤ 2 ^ 51 * unit
      → c * 2 ^ e' ≢ below_half
      → k * unit ≤ sum
      → (exponent sum ≤ 1073) × (2 * sum + 2 ^ exponent sum < 2 * (suc k * unit))
  sum_gap bound other k_below = (
    small,
    elim (dec_le (exponent sum) e') [
      | yes fine ↦ fine_gap (exponent sum) small fine
      | no coarse ↦ elim (dec_le 1022 (exponent sum)) [
        | yes large ↦
            carried_gap (exponent sum) small (omega (arith, coarse)) large
              (long (omega (arith, coarse))) k_below
        | no low ↦ low_gap (exponent sum) (omega (arith, low)) (omega (arith, coarse)) other
      ]
    ],
  )
    where
      short : bit_length sum ≤ 1126
      short = bit_length-le sum 1126 (omega (arith, bound, unit_value))

      small : exponent sum ≤ 1073
      small = omega (arith, short)

      long : 1 ≤ exponent sum → 2 ^ (52 + exponent sum) ≤ sum
      long h =
          let total : bit_length sum ≡ 1 + (52 + exponent sum) = omega (arith, h) in
          let powers : 2 ^ bit_length sum ≤ 2 * sum =
            unfold bit_length in two-pow-bit_length_from 13 sum (omega (arith, pow-pos 1073)) in
          omega (arith, powers, ap (λ (t : ℕ). 2 ^ t) total, pow-add 1 (52 + exponent sum))
