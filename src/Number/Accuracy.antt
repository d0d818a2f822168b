-- ===== src/Number/Accuracy.antt =====
-- Bounds on what rounding changes.
use native.Mathlib.Nat.{pow-le-pow_right, mul_comm, div-lt_iff_lt-mul, mul-div-le, mul-le-mul_left}
use native.Mathlib.Decide.{dec_lt}
use moltenpour.Prelude.{
  ℕ, zero, suc, ◌+◌, ◌-◌, ◌*◌, ◌/◌, ◌^◌, ◌≤◌, ◌<◌, ◌≡◌, ◌⊎◌, arith, ap, pow-add, pow-pos,
  Bool-cases, inl, inr, leb, leb→le, lt→ltb,
}
use moltenpour.Number.Rounding.{bit_length_from, nearest}

pub nearest_bounds : (k r m : ℕ) → (k ≤ nearest k r m) × (nearest k r m ≤ k + 1)
unfolding nearest
nearest_bounds k r m = ground arith

pub nearest-zero : (k m : ℕ) → 0 < m → nearest k 0 m ≡ k
unfolding nearest
nearest-zero k m h = ground arith

nearest_cases :
    (k r m : ℕ) → ((nearest k r m ≡ k) × (2 * r ≤ m)) ⊎ ((nearest k r m ≡ k + 1) × (m ≤ 2 * r))
unfolding nearest
nearest_cases k r m = ground arith

-- Twice the error is at most one step.
pub nearest_error :
    (k r m : ℕ)
    → r < m
    → (2 * (nearest k r m * m) ≤ 2 * (k * m + r) + m)
      × (2 * (k * m + r) ≤ 2 * (nearest k r m * m) + m)
nearest_error k r m h = elim (nearest_cases k r m) [
  | inl (e, le) ↦ rw e (omega arith, omega arith)
  | inr (e, le) ↦ rw e (omega arith, omega arith)
]

quotient-lt : (n b c w : ℕ) → n < 2 ^ b → b ≡ w + c → n / 2 ^ w < 2 ^ c
quotient-lt n b c w h e =
    (div-lt_iff_lt-mul (pow-pos w)).1
      (omega (arith, pow-add w c, ap (λ (t : ℕ). 2 ^ t) e, mul_comm (2 ^ w) (2 ^ c)))

exponent-lt : (w b n : ℕ) → 2 ^ w ≤ n → n < 2 ^ b → w < b
exponent-lt w b n le lt = elim (dec_lt w b) [
  | yes h ↦ h
  | no h ↦
      absurd (omega (arith, pow-le-pow_right {n = 2} (omega arith) {i = b} {j = w} (omega arith)))
]

pub bit_length_from-le : (k n b : ℕ) → n < 2 ^ b → bit_length_from k n ≤ b
unfolding bit_length_from
bit_length_from-le zero n zero h = ground arith
bit_length_from-le zero n (suc b) h = ground arith
bit_length_from-le (suc k) n b h = elim (Bool-cases (leb (2 ^ (2 ^ k)) n)) [
  | inl big ↦
      let below = exponent-lt (2 ^ k) b n (leb→le _ _ big) h in
      rw (big, bit_length_from)
        (omega (
          arith,
          bit_length_from-le k (n / 2 ^ (2 ^ k)) (b - 2 ^ k)
              (quotient-lt n b (b - 2 ^ k) (2 ^ k) h (omega arith)),
        ))
  | inr small ↦ rw (small, bit_length_from) (bit_length_from-le k n b h)
]

quotient-pos : (n w : ℕ) → 0 < w → w ≤ n → 0 < n / w
quotient-pos n w h le = elim (dec_lt 0 (n / w)) [
  | yes p ↦ p
  | no p ↦ absurd (omega (arith, (div-lt_iff_lt-mul {x = n} {y = 1} h).0 (omega arith)))
]

scaled :
    (w n l : ℕ) {p : ℕ}
    → 0 < w
    → p ≡ w * 2 ^ l
    → w ≤ n
    → (0 < n / w → 2 ^ l ≤ 2 * (n / w))
    → p ≤ 2 * n
scaled w n l h e le ih =
    let small = ih (quotient-pos n w h le) in
    let big : w * 2 ^ l ≤ w * (2 * (n / w)) = mul-le-mul_left w small in
    omega (arith, big, mul-div-le n w)

-- Half the least power of two above n is no more than n.
pub two-pow-bit_length_from : (k n : ℕ) → 0 < n → 2 ^ bit_length_from k n ≤ 2 * n
unfolding bit_length_from
two-pow-bit_length_from zero n h = rw (lt→ltb 0 n h) (omega arith)
two-pow-bit_length_from (suc k) n h = elim (Bool-cases (leb (2 ^ (2 ^ k)) n)) [
  | inl big ↦
      rw (big, bit_length_from)
        (scaled (2 ^ (2 ^ k)) n (bit_length_from k (n / 2 ^ (2 ^ k))) (pow-pos (2 ^ k))
          (pow-add (2 ^ k) _) (leb→le _ _ big) (two-pow-bit_length_from k (n / 2 ^ (2 ^ k))))
  | inr small ↦ rw (small, bit_length_from) (two-pow-bit_length_from k n h)
]
