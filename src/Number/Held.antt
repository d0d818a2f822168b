-- ===== src/Number/Held.antt =====
-- What a rounding gives is a double: 53 binary digits and an exponent.
use native.Mathlib.Nat.{
  mul-le-mul_right, mul-le-mul_left, mul-pos, div-lt_iff_lt-mul, div-le_of_le-mul, pow-le-pow_right,
  lt-div-mul-add,
}
use native.Mathlib.Decide.{dec_lt}
use moltenpour.Prelude.{
  ℕ, zero, suc, ◌+◌, ◌*◌, ◌/◌, ◌%◌, ◌^◌, ◌≤◌, ◌<◌, ◌≡◌, arith, ap, subst, pow-add, pow-pos, pos,
  Bool-cases, inl, inr, leb, ltb,
}
use moltenpour.Number.Rounding.{bit_length, bit_length_from, round_at, round_ratio}
use moltenpour.Number.Value.{Number, fin, unit, double, ◌<ₙ◌}
use moltenpour.Number.Ops.{◌*ₙ◌, min}
use moltenpour.Number.Order.{product_pos}
use moltenpour.Number.Whole.{unit-pos}
use moltenpour.Number.Accuracy.{nearest_bounds}
use moltenpour.Number.Exact.{exponent}
use moltenpour.Number.UpTo.{UpTo, double_fin}

-- Zero or more, and held by a double: 53 binary digits and an exponent.
pub data IsDouble : Number → Type 0 where
  held : (c e : ℕ) → c < 2 ^ 53 → IsDouble (fin (pos (c * 2 ^ e)))

two_pow_suc : (k : ℕ) → 2 ^ suc k ≡ 2 ^ k + 2 ^ k
two_pow_suc k = omega (arith, pow-add k 1)

square-lt : (k n : ℕ) → n < 2 ^ (2 ^ suc k) → n / 2 ^ (2 ^ k) < 2 ^ (2 ^ k)
square-lt k n h =
    (div-lt_iff_lt-mul (pow-pos (2 ^ k))).1
      (omega (arith, ap (λ (t : ℕ). 2 ^ t) (two_pow_suc k), pow-add (2 ^ k) (2 ^ k)))

-- A number is below the power of two of its length.
pub lt-two-pow-bit_length_from : (k n : ℕ) → n < 2 ^ (2 ^ k) → n < 2 ^ bit_length_from k n
unfolding bit_length_from
lt-two-pow-bit_length_from zero zero h = omega arith
lt-two-pow-bit_length_from zero (suc n) h = ground arith
lt-two-pow-bit_length_from (suc k) n h = elim (Bool-cases (leb (2 ^ (2 ^ k)) n)) [
  | inl big ↦
      let w = 2 ^ (2 ^ k) in
      let l = bit_length_from k (n / w) in
      let digits : suc (n / w) * w ≤ 2 ^ l * w =
        mul-le-mul_right w (lt-two-pow-bit_length_from k (n / w) (square-lt k n h)) in
      rw (big, bit_length_from)
        (omega (arith, digits, lt-div-mul-add {a = n} (pow-pos (2 ^ k)), pow-add (2 ^ k) l))
  | inr small ↦ rw (small, bit_length_from) (lt-two-pow-bit_length_from k n (ground arith))
]

-- Rounded to 53 digits, a value fits into 53 digits, or is the next power of two.
rounded-IsDouble : (c e : ℕ) → c ≤ 2 ^ 53 → IsDouble (fin (pos (c * 2 ^ e)))
rounded-IsDouble c e h = elim (dec_lt c (2 ^ 53)) [
  | yes few ↦ IsDouble.held c e few
  | no many ↦
      let same : 2 ^ 52 * 2 ^ suc e ≡ c * 2 ^ e =
        omega (arith, two_pow_suc e, ap (λ (t : ℕ). t * 2 ^ e) (full many)) in
      subst (λ (m : ℕ). IsDouble (fin (pos m))) same (IsDouble.held (2 ^ 52) (suc e) (omega arith))
]
  where
    full : (c < 2 ^ 53 → ⊥) → c ≡ 2 ^ 53
    full many = omega arith

digits-lt : (n d l e : ℕ) → 0 < d → n / d < 2 ^ l → l ≤ 53 + e → n / (d * 2 ^ e) < 2 ^ 53
digits-lt n d l e h few le =
    let power : 2 ^ l ≤ 2 ^ (53 + e) = pow-le-pow_right {n = 2} (omega arith) le in
    let split : 2 ^ (53 + e) ≡ 2 ^ 53 * 2 ^ e = pow-add 53 e in
    let bound : suc (n / d) * d ≤ 2 ^ 53 * 2 ^ e * d =
      mul-le-mul_right d (omega (arith, few, power, split)) in
    (div-lt_iff_lt-mul (mul-pos h (pow-pos e))).1 (omega (arith, bound, lt-div-mul-add {a = n} h))

pub round_ratio-IsDouble :
    (n d : ℕ) → 0 < d → n / d < 2 ^ 8192 → IsDouble (fin (pos (round_ratio 53 0 n d)))
unfolding round_ratio round_at
round_ratio-IsDouble n d h small =
    let e = exponent (n / d) in
    let few : n / d < 2 ^ bit_length (n / d) =
      unfold bit_length in lt-two-pow-bit_length_from 13 (n / d) small in
    let k = n / (d * 2 ^ e) in
    let whole : k < 2 ^ 53 = digits-lt n d (bit_length (n / d)) e h few (omega arith) in
    rounded-IsDouble _ e (omega (arith, (nearest_bounds k (n % (d * 2 ^ e)) (d * 2 ^ e)).1))

pub double-IsDouble :
    (k n d : ℕ) → 0 < d → k ≤ 2 ^ 52 → n ≤ k * unit * d → IsDouble (double (pos n) d)
double-IsDouble k n d h small le = rw (double_fin k n d h small le) (round_ratio-IsDouble n d h few)
  where
    few : n / d < 2 ^ 8192
    few =
        unfold unit in
        omega (
          arith,
          div-le_of_le-mul d {m = n} {n = k * unit} (omega arith),
          mul-le-mul_right unit small,
        )

pub *-IsDouble : {j k : ℕ} {x y : Number} → j * k ≤ 2 ^ 52 → UpTo j x → UpTo k y → IsDouble (x *ₙ y)
unfolding ◌*ₙ◌
*-IsDouble {j} {k} small (UpTo.up_to n h) (UpTo.up_to m i) =
    let product : n * m ≤ j * unit * (k * unit) =
      omega (arith, mul-le-mul_right m h, mul-le-mul_left (j * unit) i) in
    rw (product_pos n m) (double-IsDouble (j * k) (n * m) unit unit-pos small (omega arith))

pub min-IsDouble : {x y : Number} → IsDouble x → IsDouble y → IsDouble (min x y)
unfolding min ◌<ₙ◌
min-IsDouble (IsDouble.held c e few) (IsDouble.held c' e' few') =
    elim (Bool-cases (ltb (c' * 2 ^ e' + 0) (c * 2 ^ e + 0))) [
      | inl less ↦ rw less (IsDouble.held c' e' few')
      | inr more ↦ rw more (IsDouble.held c e few)
    ]
