-- ===== src/Number/UpTo.antt =====
-- Numbers from zero to a whole bound, and how the bound grows under each operation.
use native.Mathlib.Nat.{
  mul-le-mul_right, mul-le-mul_left, mul-pos, div-le_of_le-mul, le_of_mul-le-mul_right,
  div-lt_iff_lt-mul,
}
use native.Mathlib.Decide.{dec_lt}
use moltenpour.Prelude.{
  Bool-cases, ltb, inl, inr, leb, leb→le, ◌==◌, if◌then◌else◌, ℕ, zero, suc, ◌+◌, ◌-◌, ◌*◌, ◌/◌,
  ◌^◌, ◌≤◌, ◌<◌, ◌≡◌, refl, arith, pos,
}
use moltenpour.Number.Rounding.{isqrt, isqrt_bits, bit_length, round_at, round_ratio}
use moltenpour.Number.Value.{Number, ◌<ₙ◌, fin, unit, double, of_ℕ}
use moltenpour.Number.Ops.{◌+ₙ◌, ◌*ₙ◌, ◌/ₙ◌, min, ceil, round, floor, sqrt}
use moltenpour.Number.Order.{sum_pos, product_pos, IsNonnegFinite, ◌≤ₙ◌}
use moltenpour.Number.Whole.{unit-pos, whole_div}
use moltenpour.Number.Exact.{exponent, pos_mag-fin, unit-overflow}
use moltenpour.Number.Quotient.{round_at_error, step_le, unit-large, div_fin_pos}

pub data UpTo (k : ℕ) : Number → Type 0 where
  up_to : (n : ℕ) → n ≤ k * unit → UpTo k (fin (pos n))

-- Rounding adds at most one.
pub round_ratio-le :
    (k n d : ℕ) → 0 < d → k ≤ 2 ^ 52 → n ≤ k * unit * d → round_ratio 53 0 n d ≤ (k + 1) * unit
unfolding round_ratio
round_ratio-le k n d h small le =
    let q = n / d in
    let m = round_at (exponent q) n d in
    let s = 2 ^ exponent q in
    let q_le : q ≤ k * unit = div-le_of_le-mul d (omega arith) in
    let error : (2 * m) * d ≤ (2 * (k * unit) + s) * d =
      omega (arith, (round_at_error (exponent q) n d h).0) in
    let near : 2 * m ≤ 2 * (k * unit) + s = le_of_mul-le-mul_right error h in
    omega (arith, step_le q, mul-le-mul_right unit small, unit-large)

pub double_fin :
    (k n d : ℕ)
    → 0 < d
    → k ≤ 2 ^ 52
    → n ≤ k * unit * d
    → double (pos n) d ≡ fin (pos (round_ratio 53 0 n d))
unfolding double
double_fin k n d h small le = pos_mag-fin (round_ratio 53 0 n d) (
    omega (
      arith,
      round_ratio-le k n d h small le,
      unit-overflow,
      mul-le-mul_right unit small,
      unit-large,
    ))

pub double-UpTo :
    (k n d : ℕ) → 0 < d → k ≤ 2 ^ 52 → n ≤ k * unit * d → UpTo (k + 1) (double (pos n) d)
double-UpTo k n d h small le =
    rw (double_fin k n d h small le) (UpTo.up_to _ (round_ratio-le k n d h small le))

pub UpTo-mono : {j k : ℕ} {x : Number} → j ≤ k → UpTo j x → UpTo k x
UpTo-mono le (UpTo.up_to n h) = UpTo.up_to n (omega (arith, h, mul-le-mul_right unit le))

pub of_ℕ-UpTo : (n : ℕ) → UpTo n (of_ℕ n)
unfolding of_ℕ
of_ℕ-UpTo n = UpTo.up_to _ (omega arith)

pub +-UpTo :
    {j k : ℕ} {x y : Number} → j + k ≤ 2 ^ 52 → UpTo j x → UpTo k y → UpTo (j + k + 1) (x +ₙ y)
unfolding ◌+ₙ◌
+-UpTo {j} {k} small (UpTo.up_to n h) (UpTo.up_to m i) =
    rw (sum_pos n m) (double-UpTo (j + k) (n + m) 1 (omega arith) small (omega arith))

pub *-UpTo :
    {j k : ℕ} {x y : Number} → j * k ≤ 2 ^ 52 → UpTo j x → UpTo k y → UpTo (j * k + 1) (x *ₙ y)
unfolding ◌*ₙ◌
*-UpTo {j} {k} small (UpTo.up_to n h) (UpTo.up_to m i) =
    let product : n * m ≤ j * unit * (k * unit) =
      omega (arith, mul-le-mul_right m h, mul-le-mul_left (j * unit) i) in
    rw (product_pos n m) (double-UpTo (j * k) (n * m) unit unit-pos small (omega arith))

-- Division by a whole number.
pub /-UpTo :
    {k : ℕ} {x : Number} (b : ℕ) → 0 < b → k ≤ 2 ^ 52 → UpTo k x → UpTo (k + 1) (x /ₙ of_ℕ b)
unfolding ◌/ₙ◌ of_ℕ
/-UpTo {k} b h small (UpTo.up_to n le) =
    let divisor : 0 < b * unit = mul-pos h unit-pos in
    let once : k * unit ≤ k * unit * b = omega (arith, mul-le-mul_left (k * unit) h) in
    rw (div_fin_pos n (b * unit) divisor) (
      double-UpTo k (n * unit) (b * unit) divisor small
        (omega (arith, mul-le-mul_right unit le, mul-le-mul_right unit once)))

-- A whole number up to k.
pub data WholeUpTo (k : ℕ) : Number → Type 0 where
  whole : (w : ℕ) → w ≤ k → WholeUpTo k (of_ℕ w)

whole_of : (k w : ℕ) → w ≤ k → WholeUpTo k (fin (pos (w * unit)))
whole_of k w h = unfold of_ℕ in WholeUpTo.whole w h

pub floor-WholeUpTo : {k : ℕ} {x : Number} → UpTo k x → WholeUpTo k (floor x)
unfolding floor
floor-WholeUpTo {k} (UpTo.up_to n h) = whole_of k (n / unit) (div-le_of_le-mul unit (omega arith))

pub ceil-WholeUpTo : {k : ℕ} {x : Number} → UpTo k x → WholeUpTo k (ceil x)
unfolding ceil
ceil-WholeUpTo {k} (UpTo.up_to n h) = whole_of k _ (
    omega (
      arith,
      (div-lt_iff_lt-mul {x = n + (unit - 1)} {y = k + 1} unit-pos).1 (omega (arith, unit-pos)),
    ))

pub round-WholeUpTo : {k : ℕ} {x : Number} → UpTo k x → WholeUpTo k (round x)
unfolding round
round-WholeUpTo {k} (UpTo.up_to n h) =
    let twice : 0 < 2 * unit = omega (arith, unit-pos) in
    whole_of k _ (
      omega (
        arith,
        (div-lt_iff_lt-mul {x = 2 * n + unit} {y = k + 1} twice).1 (omega (arith, unit-pos)),
      ))

isqrt_bits-le : (k acc n : ℕ) → acc * acc ≤ n → isqrt_bits k acc n * isqrt_bits k acc n ≤ n
unfolding isqrt_bits
isqrt_bits-le zero acc n h = h
isqrt_bits-le (suc k) acc n h = elim (Bool-cases (leb ((acc + 2 ^ k) * (acc + 2 ^ k)) n)) [
  | inl fits ↦ rw fits (isqrt_bits-le k (acc + 2 ^ k) n (leb→le _ _ fits))
  | inr over ↦ rw over (isqrt_bits-le k acc n h)
]

-- The square of the integer root is at most the number.
pub isqrt-le : (n : ℕ) → isqrt n * isqrt n ≤ n
unfolding isqrt
isqrt-le n = isqrt_bits-le (bit_length n / 2 + 1) 0 n (omega arith)

pub root-le : (s m : ℕ) → s * s ≤ m * m → s ≤ m
root-le s m h = elim (dec_lt m s) [
  | yes p ↦ absurd (omega (arith, h, mul-le-mul_right m p, mul-le-mul_left s p))
  | no p ↦ omega arith
]

pub sqrt-UpTo :
    {k : ℕ} {x : Number} → k * k ≤ 2 ^ 52 → k ≤ 2 ^ 50 → UpTo (k * k) x → UpTo (k + 1 + 1) (sqrt x)
unfolding sqrt
sqrt-UpTo {k} square small (UpTo.up_to n h) =
    let s = isqrt (n * unit) in
    let root : s ≤ k * unit =
      root-le s (k * unit) (omega (arith, isqrt-le (n * unit), mul-le-mul_right unit h)) in
    let c : ℕ = if s * s == n * unit then 0 else 1 in
    let c_le : c ≤ 1 = ground arith in
    double-UpTo (k + 1) (2 * s + c) 2 (omega arith) (omega arith) (omega (arith, unit-pos))

pub min-UpTo : {j k : ℕ} {x y : Number} → UpTo j x → UpTo k y → UpTo k (min x y)
unfolding min ◌<ₙ◌
min-UpTo (UpTo.up_to n h) (UpTo.up_to m i) = elim (Bool-cases (ltb (m + 0) (n + 0))) [
  | inl less ↦ rw less (UpTo.up_to m i)
  | inr more ↦ rw more (UpTo.up_to n (ground arith))
]

pub UpTo-of_le : {k : ℕ} {x y : Number} → IsNonnegFinite x → x ≤ₙ y → UpTo k y → UpTo k x
UpTo-of_le (IsNonnegFinite.finite n) le (UpTo.up_to m h) = UpTo.up_to n (omega arith)

pub UpTo-of_WholeUpTo : {k : ℕ} {x : Number} → WholeUpTo k x → UpTo k x
UpTo-of_WholeUpTo (WholeUpTo.whole w h) = UpTo-mono h (of_ℕ-UpTo w)

-- The whole part of a number at or above zero.
unfoldable pub nat : Number → ℕ
nat (fin (pos n)) = n / unit
nat x = 0

pub nat-of_ℕ : (n : ℕ) → nat (of_ℕ n) ≡ n
unfolding nat of_ℕ
nat-of_ℕ n = whole_div n

pub WholeUpTo-nat : {k : ℕ} {x : Number} → WholeUpTo k x → (x ≡ of_ℕ (nat x)) × (nat x ≤ k)
WholeUpTo-nat (WholeUpTo.whole w h) = rw (nat-of_ℕ w) (refl, h)
