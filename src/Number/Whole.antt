-- ===== src/Number/Whole.antt =====
-- Whole numbers and literals as doubles.
use moltenpour.Prelude.{ℕ, zero, suc, ◌*◌, ◌/◌, ◌%◌, ◌≤◌, ◌<◌, ◌≡◌, arith, ltb}
use moltenpour.Prelude.{pos, List, get_elem?}
use native.Mathlib.Nat.{mul-div_cancel, mul-mod_left}
use moltenpour.Number.Value.{fin, unit, of_ℕ, ◌<ₙ◌}
use moltenpour.Number.Ops.{floor}
use moltenpour.Number.Elements.{element}
use moltenpour.Number.Order.{IsPositive, IsNonnegFinite}

pub unit-pos : 0 < unit
unfolding unit
unit-pos = omega arith

pub IsPositive-of_lt : (m : ℕ) → 0 < m → IsPositive (fin (pos m))
IsPositive-of_lt zero h = absurd (omega arith)
IsPositive-of_lt (suc m) h = IsPositive.finite m

pub of_ℕ-IsPositive : (n : ℕ) → 0 < n → IsPositive (of_ℕ n)
unfolding of_ℕ
of_ℕ-IsPositive n h = IsPositive-of_lt _ (grind (arith, unit-pos))

pub of_ℕ-IsNonnegFinite : (n : ℕ) → IsNonnegFinite (of_ℕ n)
unfolding of_ℕ
of_ℕ-IsNonnegFinite n = IsNonnegFinite.finite _

pub whole_div : (n : ℕ) → n * unit / unit ≡ n
whole_div n = mul-div_cancel n unit-pos

pub whole_mod : (n : ℕ) → n * unit % unit ≡ 0
whole_mod n = mul-mod_left n unit

pub whole-lt : (a b : ℕ) → a < b → a * unit < b * unit
whole-lt a b h = grind (arith, unit-pos)

pub whole-le : (a b : ℕ) → a ≤ b → a * unit ≤ b * unit
whole-le a b h = grind (arith)

pub lt-of_ℕ : (a b : ℕ) → of_ℕ a <ₙ of_ℕ b ≡ ltb a b
unfolding of_ℕ ◌<ₙ◌
lt-of_ℕ a b = ground (arith, whole-lt a b, whole-le b a)

pub floor-of_ℕ : (n : ℕ) → floor (of_ℕ n) ≡ of_ℕ n
unfolding floor of_ℕ
floor-of_ℕ n = rw (whole_div n)

pub element-of_ℕ {ℓ} : {A : Type ℓ} (xs : List A) (i : ℕ) → element xs (of_ℕ i) ≡ get_elem? xs i
unfolding element of_ℕ
element-of_ℕ xs i = rw (whole_mod i, whole_div i)
