-- ===== src/Number/AtLeast.antt =====
-- Numbers from a bound on, in steps of 2 ^ -10, and how the bound passes through each operation. The
-- results are below 2 ^ 42, where rounding does not cross such a step.
use native.Mathlib.Nat.{
  mul-le-mul_right, mul-le-mul_left, mul-pos, div-le_of_le-mul, pow-le-pow_right,
}
use native.Mathlib.Decide.{dec_le}
use moltenpour.Prelude.{
  ℕ, zero, suc, ◌+◌, ◌-◌, ◌*◌, ◌/◌, ◌^◌, ◌≤◌, ◌<◌, ◌≡◌, arith, ap, ◌∙◌, pow-add, pos, Bool-cases,
  inl, inr, leb, ◌==◌, if◌then◌else◌,
}
use moltenpour.Number.Rounding.{isqrt, isqrt_bits, bit_length, round_at, round_ratio}
use moltenpour.Number.Value.{Number, fin, unit, double, of_ℕ}
use moltenpour.Number.Ops.{◌+ₙ◌, ◌*ₙ◌, ◌/ₙ◌, sqrt}
use moltenpour.Number.Order.{sum_pos, product_pos}
use moltenpour.Number.Whole.{unit-pos}
use moltenpour.Number.Exact.{exponent, bit_length-le}
use moltenpour.Number.Quotient.{le-round_at, div_fin_pos}
use moltenpour.Number.UpTo.{UpTo, double_fin, isqrt-le, root-le}
use moltenpour.Number.Held.{lt-two-pow-bit_length_from}

pub data AtLeast (j : ℕ) : Number → Type 0 where
  at_least : (n : ℕ) → j * 2 ^ 1064 ≤ n → AtLeast j (fin (pos n))

UpTo-le : {k n : ℕ} → UpTo k (fin (pos n)) → n ≤ k * unit
UpTo-le (UpTo.up_to n h) = h

step_split : (e : ℕ) → e ≤ 1064 → 2 ^ 1064 ≡ 2 ^ (1064 - e) * 2 ^ e
step_split e h =
    let same : 1064 ≡ (1064 - e) + e = omega arith in
    ap (λ (t : ℕ). 2 ^ t) same ∙ pow-add (1064 - e) e

double-AtLeast :
    (j k n d : ℕ)
    → 0 < d
    → k < 2 ^ 43
    → n ≤ k * unit * d
    → j * 2 ^ 1064 * d ≤ n
    → AtLeast j (double (pos n) d)
double-AtLeast j k n d h small le least =
    rw (double_fin k n d h (omega arith) le) (
      AtLeast.at_least (round_ratio 53 0 n d) (unfold round_ratio in bound (exponent (n / d)) fine))
  where
    fine : exponent (n / d) ≤ 1064
    fine = omega (
      arith,
      bit_length-le (n / d) 1117 (
          unfold unit in
          omega (
            arith,
            div-le_of_le-mul d {m = n} {n = k * unit} (omega arith),
            mul-le-mul_right unit small,
          )),
    )

    bound : (e : ℕ) → e ≤ 1064 → j * 2 ^ 1064 ≤ round_at e n d
    bound e small =
        let whole : j * 2 ^ 1064 ≡ j * 2 ^ (1064 - e) * 2 ^ e =
          ap (λ (t : ℕ). j * t) (step_split e small) ∙ omega arith in
        omega (
          arith,
          whole,
          le-round_at e (j * 2 ^ (1064 - e)) n d h
              (omega (arith, least, ap (λ (t : ℕ). t * d) whole)),
        )

pub of_ℕ-AtLeast : (n : ℕ) → AtLeast (n * 1024) (of_ℕ n)
unfolding of_ℕ unit
of_ℕ-AtLeast n = AtLeast.at_least _ (omega arith)

pub +-AtLeast :
    {i j k : ℕ} {x y : Number}
    → j + k < 2 ^ 43
    → AtLeast i x
    → UpTo j x
    → UpTo k y
    → AtLeast i (x +ₙ y)
unfolding ◌+ₙ◌
+-AtLeast {i} {j} {k} small (AtLeast.at_least n least) h (UpTo.up_to m le) = rw (sum_pos n m) (
    double-AtLeast i (j + k) (n + m) 1 (omega arith) small (omega (arith, UpTo-le h)) (omega arith))

pub *-AtLeast :
    {i j t k l : ℕ} {x y : Number}
    → k * l < 2 ^ 43
    → t * 1024 ≤ i * j
    → AtLeast i x
    → AtLeast j y
    → UpTo k x
    → UpTo l y
    → AtLeast t (x *ₙ y)
unfolding ◌*ₙ◌
*-AtLeast {i} {j} {t} {k} {l} small less (AtLeast.at_least n least) (AtLeast.at_least m least') h
      h' =
    let above : n * m ≤ k * unit * (l * unit) =
      omega (arith, mul-le-mul_right m (UpTo-le h), mul-le-mul_left (k * unit) (UpTo-le h')) in
    let below : i * 2 ^ 1064 * (j * 2 ^ 1064) ≤ n * m =
      omega (arith, mul-le-mul_right (j * 2 ^ 1064) least, mul-le-mul_left n least') in
    rw (product_pos n m) (
      double-AtLeast t (k * l) (n * m) unit unit-pos small (omega arith)
        (unfold unit in omega (arith, below, mul-le-mul_right (2 ^ 2128) less)))

-- Division by a whole number.
pub /-AtLeast :
    {i t k : ℕ} {x : Number} (b : ℕ)
    → 0 < b
    → k < 2 ^ 43
    → t * b ≤ i
    → AtLeast i x
    → UpTo k x
    → AtLeast t (x /ₙ of_ℕ b)
unfolding ◌/ₙ◌ of_ℕ
/-AtLeast {i} {t} {k} b h small less (AtLeast.at_least n least) up =
    let divisor : 0 < b * unit = mul-pos h unit-pos in
    let once : k * unit ≤ k * unit * b = omega (arith, mul-le-mul_left (k * unit) h) in
    let below : t * b * 2 ^ 1064 ≤ n = omega (arith, mul-le-mul_right (2 ^ 1064) less) in
    rw (div_fin_pos n (b * unit) divisor) (
      double-AtLeast t k (n * unit) (b * unit) divisor small
        (omega (arith, mul-le-mul_right unit (UpTo-le up), mul-le-mul_right unit once))
        (omega (arith, mul-le-mul_right unit below)))

isqrt_bits-lt :
    (k acc n : ℕ)
    → n < (acc + 2 ^ k) * (acc + 2 ^ k)
    → n < suc (isqrt_bits k acc n) * suc (isqrt_bits k acc n)
unfolding isqrt_bits
isqrt_bits-lt zero acc n h = omega arith
isqrt_bits-lt (suc k) acc n h = elim (Bool-cases (leb ((acc + 2 ^ k) * (acc + 2 ^ k)) n)) [
  | inl fits ↦ rw fits (isqrt_bits-lt k (acc + 2 ^ k) n (omega (arith, wider)))
  | inr over ↦ rw over (isqrt_bits-lt k acc n (ground arith))
]
  where
    double_step : acc + 2 ^ suc k ≡ acc + 2 ^ k + 2 ^ k
    double_step = omega (arith, pow-add k 1)

    wider : (acc + 2 ^ suc k) * (acc + 2 ^ suc k) ≡ (acc + 2 ^ k + 2 ^ k) * (acc + 2 ^ k + 2 ^ k)
    wider = ap (λ (t : ℕ). t * t) double_step

-- The square of the next number is above.
isqrt-lt : (n : ℕ) → n < 2 ^ 8192 → n < suc (isqrt n) * suc (isqrt n)
unfolding isqrt
isqrt-lt n small =
    let l = bit_length n in
    let few : n < 2 ^ l = unfold bit_length in lt-two-pow-bit_length_from 13 n small in
    let h = l / 2 + 1 in
    let wide : 2 ^ l ≤ 2 ^ (h + h) = pow-le-pow_right {n = 2} (omega arith) (omega arith) in
    isqrt_bits-lt h 0 n (omega (arith, few, wide, pow-add h h))

root-ge : (s m : ℕ) → m * m < suc s * suc s → m ≤ s
root-ge s m h = elim (dec_le m s) [
  | yes p ↦ p
  | no p ↦
      let more : suc s ≤ m = omega arith in
      absurd (omega (arith, h, mul-le-mul_right m more, mul-le-mul_left (suc s) more))
]

pub sqrt-AtLeast :
    {i t k : ℕ} {x : Number}
    → k < 2 ^ 26
    → t * t ≤ i * 1024
    → AtLeast i x
    → UpTo (k * k) x
    → AtLeast t (sqrt x)
unfolding sqrt
sqrt-AtLeast {i} {t} {k} small less (AtLeast.at_least n least) up =
    let s = isqrt (n * unit) in
    let c : ℕ = if s * s == n * unit then 0 else 1 in
    let c_le : c ≤ 1 = ground arith in
    let square : n * unit ≤ k * unit * (k * unit) =
      omega (arith, mul-le-mul_right unit (UpTo-le up)) in
    let high : s ≤ k * unit = root-le s (k * unit) (omega (arith, square, isqrt-le (n * unit))) in
    let narrow : k * k ≤ 2 ^ 52 =
      omega (arith, mul-le-mul_right k small, mul-le-mul_left (2 ^ 26) small) in
    let bounded : n * unit < 2 ^ 8192 =
      unfold unit in omega (arith, square, mul-le-mul_right (2 ^ 2148) narrow) in
    let below : t * 2 ^ 1064 * (t * 2 ^ 1064) ≤ n * unit =
      unfold unit in
      omega (arith, mul-le-mul_right (2 ^ 1074) least, mul-le-mul_right (2 ^ 2128) less) in
    let low : t * 2 ^ 1064 ≤ s =
      root-ge s (t * 2 ^ 1064) (omega (arith, below, isqrt-lt (n * unit) bounded)) in
    double-AtLeast t (k + 1) (2 * s + c) 2 (omega arith) (omega arith) (omega (arith, unit-pos))
      (omega arith)
