-- ===== src/Prelude/Bits.antt =====
-- `^` on natural numbers at variables, from the digit recursion that it stands for.
use Prim.Native.Nat.{ℕ, zero, suc, ◌+◌, ◌*◌, ◌/◌, ◌%◌, ◌≤◌, ◌<◌, ◌^◌}
use Prim.Native.Nat.{digits, differ, bit_xor, bit_xor-bitwise}
use mathlib.Core.Path.{◌≡◌, refl}
use native.Mathlib.Nat.{pow-suc}
use native.Mathlib.Omega.{arith}

-- The digits of an exclusive or, computed with fuel.
abbrev xor_digits : ℕ → ℕ → ℕ → ℕ
xor_digits fuel x y = digits (λ t. t) differ fuel x y

-- Fuel for the first operand is enough, and more changes nothing.
spare_fuel : (bound fuel x y : ℕ) → x ≤ bound → x ≤ fuel → xor_digits fuel x y ≡ xor_digits x x y
spare_fuel bound (suc fuel) zero y small fits = refl
spare_fuel bound zero zero y small fits = refl
spare_fuel zero fuel (suc x) y small fits = absurd (omega arith)
spare_fuel (suc bound) zero (suc x) y small fits = absurd (omega arith)
spare_fuel (suc bound) (suc fuel) (suc x) y small fits =
    let long = spare_fuel bound fuel (suc x / 2) (y / 2) (omega arith) (omega arith) in
    let short = spare_fuel bound x (suc x / 2) (y / 2) (omega arith) (omega arith) in
    omega (arith, long, short)

last_digit :
    (x y : ℕ)
    → xor_digits (suc x) (suc x) y
      ≡ xor_digits (suc x / 2) (suc x / 2) (y / 2) * 2 + differ (suc x % 2) (y % 2)
last_digit x y = omega (arith, spare_fuel x x (suc x / 2) (y / 2) (omega arith) (omega arith))

differ_bits : (m n : ℕ) → m < 2 → n < 2 → differ m n ≡ (m + n) % 2
differ_bits zero zero p q = refl
differ_bits zero (suc zero) p q = refl
differ_bits (suc zero) zero p q = refl
differ_bits (suc zero) (suc zero) p q = refl
differ_bits zero (suc (suc n)) p q = absurd (omega arith)
differ_bits (suc zero) (suc (suc n)) p q = absurd (omega arith)
differ_bits (suc (suc m)) n p q = absurd (omega arith)

digits_xor : (a b : ℕ) → bit_xor a b ≡ bit_xor (a / 2) (b / 2) * 2 + differ (a % 2) (b % 2)
digits_xor zero b = simp bit_xor-bitwise (omega (arith, differ_bits 0 (b % 2)))
digits_xor (suc a) b = simp bit_xor-bitwise (last_digit a b)

-- The law of the lowest digit.
pub bit_xor_step : (a b : ℕ) → bit_xor a b ≡ bit_xor (a / 2) (b / 2) * 2 + (a + b) % 2
bit_xor_step a b =
    omega (arith, digits_xor a b, differ_bits (a % 2) (b % 2) (omega arith) (omega arith))

xor_cancel_fuel : (n a b : ℕ) → a ≤ n → b ≤ n → bit_xor (bit_xor a b) b ≡ a
xor_cancel_fuel zero zero zero p q = refl
xor_cancel_fuel zero (suc a) b p q = absurd (omega arith)
xor_cancel_fuel zero a (suc b) p q = absurd (omega arith)
xor_cancel_fuel (suc n) a b p q = ground (
  arith,
  xor_cancel_fuel n (a / 2) (b / 2) (omega arith) (omega arith),
  bit_xor_step a b,
  bit_xor_step (bit_xor a b) b,
)

-- A mask applied twice changes nothing.
pub xor_cancel : (a b : ℕ) → bit_xor (bit_xor a b) b ≡ a
xor_cancel a b = xor_cancel_fuel (a + b) a b (omega arith) (omega arith)

xor_comm_fuel : (n a b : ℕ) → a ≤ n → b ≤ n → bit_xor a b ≡ bit_xor b a
xor_comm_fuel zero zero zero p q = refl
xor_comm_fuel zero (suc a) b p q = absurd (omega arith)
xor_comm_fuel zero a (suc b) p q = absurd (omega arith)
xor_comm_fuel (suc n) a b p q = omega (
  arith,
  xor_comm_fuel n (a / 2) (b / 2) (omega arith) (omega arith),
  bit_xor_step a b,
  bit_xor_step b a,
)

pub xor_comm : (a b : ℕ) → bit_xor a b ≡ bit_xor b a
xor_comm a b = xor_comm_fuel (a + b) a b (omega arith) (omega arith)

-- No bit is set above the width of the operands.
pub xor-lt : (k a b : ℕ) → a < 2 ^ k → b < 2 ^ k → bit_xor a b < 2 ^ k
xor-lt zero zero zero p q = p
xor-lt zero (suc a) b p q = absurd (omega arith)
xor-lt zero a (suc b) p q = absurd (omega arith)
xor-lt (suc k) a b p q = omega (
  arith,
  xor-lt k (a / 2) (b / 2) (omega (arith, pow-suc 2 k)) (omega (arith, pow-suc 2 k)),
  bit_xor_step a b,
  pow-suc 2 k,
)
