-- ===== src/Number/Exact.antt =====
-- Arithmetic on whole numbers below 2 ^ 53 is exact.
use native.Mathlib.Nat.{mul-div_cancel, mul-mod_left, mul_assoc, mul-pos}
use Prim.Native.Nat.{max}
use moltenpour.Prelude.{
  ℕ, zero, suc, ◌+◌, ◌-◌, ◌*◌, ◌^◌, ◌≤◌, ◌<◌, ◌≡◌, refl, arith, ap, sym, ◌∙◌, pow-add, pow-pos, pos,
  neg_ℕ, ◌+ℤ◌, lt→ltb,
}
use moltenpour.Number.Rounding.{bit_length, round_at, round_ratio}
use moltenpour.Number.Value.{fin, unit, overflow, pos_mag, double, of_ℕ}
use moltenpour.Number.Ops.{◌+ₙ◌, ◌*ₙ◌, ◌-ₙ◌, neg}
use moltenpour.Number.Order.{sum_pos, product_pos}
use moltenpour.Number.Whole.{unit-pos, whole-lt}
use moltenpour.Number.Accuracy.{nearest-zero, bit_length_from-le}

-- A multiple of the step is not moved.
pub round_at_exact : (e c d : ℕ) → 0 < d → round_at e (c * 2 ^ e * d) d ≡ c * 2 ^ e
unfolding round_at
round_at_exact e c d h =
    let D = d * 2 ^ e in
    let step : 0 < D = mul-pos h (pow-pos e) in
    let same : c * 2 ^ e * d ≡ c * D = omega arith in
    rw (same, mul-div_cancel c step, mul-mod_left c D, nearest-zero c D step)

pub unit_split : (e : ℕ) → e ≤ 1074 → unit ≡ 2 ^ (1074 - e) * 2 ^ e
unfolding unit
unit_split e h =
    let same : 1074 ≡ (1074 - e) + e = omega arith in
    ap (λ (t : ℕ). 2 ^ t) same ∙ pow-add (1074 - e) e

pub bit_length-le : (n b : ℕ) → n < 2 ^ b → bit_length n ≤ b
unfolding bit_length
bit_length-le n b h = bit_length_from-le 13 n b h

-- The exponent of the step, for a value below 2 ^ b.
abbrev pub exponent : ℕ → ℕ
exponent q = max (bit_length q - 53) 0

pub pow_53_unit : 2 ^ 53 * unit ≡ 2 ^ 1127
unfolding unit
pow_53_unit = refl

pub unit-overflow : 2 ^ 53 * unit < overflow
unfolding unit overflow
unit-overflow = omega arith

whole-lt-pow : (c : ℕ) → c < 2 ^ 53 → c * unit < 2 ^ 1127
whole-lt-pow c h = omega (arith, pow_53_unit, whole-lt c (2 ^ 53) h)

pub pos_mag-fin : (m : ℕ) → m < overflow → pos_mag m ≡ fin (pos m)
unfolding pos_mag
pos_mag-fin m h = rw (lt→ltb m overflow h)

whole-lt-overflow : (c : ℕ) → c < 2 ^ 53 → c * unit < overflow
whole-lt-overflow c h = omega (arith, unit-overflow, whole-lt c (2 ^ 53) h)

round_whole : (c d : ℕ) → 0 < d → c < 2 ^ 53 → round_ratio 53 0 (c * unit * d) d ≡ c * unit
unfolding round_ratio
round_whole c d h lt =
    let small : bit_length (c * unit) ≤ 1127 = bit_length-le _ 1127 (whole-lt-pow c lt) in
    rw (mul-div_cancel (c * unit) h) (at (exponent (c * unit)) (omega arith))
  where
    at : (e : ℕ) → e ≤ 1074 → round_at e (c * unit * d) d ≡ c * unit
    at e le =
        let whole : c * unit ≡ c * 2 ^ (1074 - e) * 2 ^ e =
          ap (λ (t : ℕ). c * t) (unit_split e le) ∙ sym (mul_assoc c (2 ^ (1074 - e)) (2 ^ e)) in
        rw whole (round_at_exact e (c * 2 ^ (1074 - e)) d h)

pub double_whole : (c d : ℕ) → 0 < d → c < 2 ^ 53 → double (pos (c * unit * d)) d ≡ of_ℕ c
unfolding double of_ℕ
double_whole c d h lt = rw (round_whole c d h lt) (pos_mag-fin _ (whole-lt-overflow c lt))

-- The sum, product and difference of whole numbers, where the result is below 2 ^ 53.
pub of_ℕ-add : (a b : ℕ) → a + b < 2 ^ 53 → of_ℕ a +ₙ of_ℕ b ≡ of_ℕ (a + b)
of_ℕ-add a b h = split ∙ double_whole (a + b) 1 (omega arith) h
  where
    regroup : a * unit + b * unit ≡ (a + b) * unit * 1
    regroup = omega arith

    split : of_ℕ a +ₙ of_ℕ b ≡ double (pos ((a + b) * unit * 1)) 1
    split = unfold ◌+ₙ◌ of_ℕ in rw (sum_pos (a * unit) (b * unit), regroup)

pub of_ℕ-mul : (a b : ℕ) → a * b < 2 ^ 53 → of_ℕ a *ₙ of_ℕ b ≡ of_ℕ (a * b)
of_ℕ-mul a b h = split ∙ double_whole (a * b) unit unit-pos h
  where
    regroup : a * unit * (b * unit) ≡ a * b * unit * unit
    regroup = omega arith

    split : of_ℕ a *ₙ of_ℕ b ≡ double (pos (a * b * unit * unit)) unit
    split = unfold ◌*ₙ◌ of_ℕ in rw (product_pos (a * unit) (b * unit), regroup)

difference_pos : (n m k : ℕ) → m + k ≡ n → pos n +ℤ neg_ℕ m ≡ pos k
unfolding ◌+ℤ◌
difference_pos n zero k e = ground arith
difference_pos n (suc m) k e = ground arith

pub of_ℕ-sub : (a b : ℕ) → b ≤ a → a < 2 ^ 53 → of_ℕ a -ₙ of_ℕ b ≡ of_ℕ (a - b)
of_ℕ-sub a b le h = split ∙ double_whole (a - b) 1 (omega arith) (omega arith)
  where
    regroup : b * unit + (a - b) * unit * 1 ≡ a * unit
    regroup =
        let whole : a ≡ b + (a - b) = omega arith in omega (arith, ap (λ (t : ℕ). t * unit) whole)

    split : of_ℕ a -ₙ of_ℕ b ≡ double (pos ((a - b) * unit * 1)) 1
    split = unfold ◌-ₙ◌ ◌+ₙ◌ neg of_ℕ in rw (difference_pos (a * unit) (b * unit) _ regroup)
