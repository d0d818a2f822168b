-- ===== src/Number/Order.antt =====
-- The order of numbers, and the operations that keep a number at or above zero.
use moltenpour.Prelude.{ℕ, ◌≢◌, suc, ◌+◌, ◌*◌, ◌≡◌, arith, ltb, true, false, Bool-cases, inl, inr}
use moltenpour.Prelude.{pos, ◌≤ℤ◌, ◌+ℤ◌, ◌*ℤ◌, refl}
use moltenpour.Number.Value.{Number, pos_inf, neg_inf, fin, unit, overflow, pos_mag, double, ◌<ₙ◌}
use moltenpour.Number.Ops.{◌+ₙ◌, inf_like, ◌*ₙ◌, ◌/ₙ◌, div_fin, sqrt, ceil, min}

-- `a ≤ b` between numbers; false where either is NaN.
infix 50 ◌≤ₙ◌
abbrev pub ◌≤ₙ◌ : Number → Number → Type 0
fin a ≤ₙ fin b = a ≤ℤ b
neg_inf ≤ₙ neg_inf = Unit
neg_inf ≤ₙ fin b = Unit
neg_inf ≤ₙ pos_inf = Unit
fin a ≤ₙ pos_inf = Unit
pos_inf ≤ₙ pos_inf = Unit
a ≤ₙ b = ⊥

-- Zero or more: a finite such number, or positive infinity.
pub data IsNonneg : Number → Type 0 where
  infinite : IsNonneg pos_inf
  finite : (n : ℕ) → IsNonneg (fin (pos n))

-- More than zero, and finite.
pub data IsPositive : Number → Type 0 where
  finite : (n : ℕ) → IsPositive (fin (pos (suc n)))

-- Zero or more, and finite.
pub data IsNonnegFinite : Number → Type 0 where
  finite : (n : ℕ) → IsNonnegFinite (fin (pos n))

pub IsNonneg_of_IsPositive : {x : Number} → IsPositive x → IsNonneg x
IsNonneg_of_IsPositive (IsPositive.finite n) = IsNonneg.finite (suc n)

pub IsNonneg_of_IsNonnegFinite : {x : Number} → IsNonnegFinite x → IsNonneg x
IsNonneg_of_IsNonnegFinite (IsNonnegFinite.finite n) = IsNonneg.finite n

pub pos_mag-IsNonneg : (m : ℕ) → IsNonneg (pos_mag m)
unfolding pos_mag
pos_mag-IsNonneg m = elim (Bool-cases (ltb m overflow)) [
  | inl fits ↦ rw fits (IsNonneg.finite m)
  | inr over ↦ rw over IsNonneg.infinite
]

pub double-IsNonneg : (n d : ℕ) → IsNonneg (double (pos n) d)
unfolding double
double-IsNonneg n d = pos_mag-IsNonneg _

pub sum_pos : (n m : ℕ) → pos n +ℤ pos m ≡ pos (n + m)
unfolding ◌+ℤ◌
sum_pos n m = ground arith

pub product_pos : (n m : ℕ) → pos n *ℤ pos m ≡ pos (n * m)
unfolding ◌*ℤ◌
product_pos n m = ground arith

pub +-IsNonneg : {x y : Number} → IsNonneg x → IsNonneg y → IsNonneg (x +ₙ y)
unfolding ◌+ₙ◌
+-IsNonneg IsNonneg.infinite IsNonneg.infinite = IsNonneg.infinite
+-IsNonneg IsNonneg.infinite (IsNonneg.finite m) = IsNonneg.infinite
+-IsNonneg (IsNonneg.finite n) IsNonneg.infinite = IsNonneg.infinite
+-IsNonneg (IsNonneg.finite n) (IsNonneg.finite m) = rw (sum_pos n m) (double-IsNonneg (n + m) 1)

pub *-IsNonneg_finite : {x y : Number} → IsNonnegFinite x → IsNonnegFinite y → IsNonneg (x *ₙ y)
unfolding ◌*ₙ◌
*-IsNonneg_finite (IsNonnegFinite.finite n) (IsNonnegFinite.finite m) =
    rw (product_pos n m) (double-IsNonneg (n * m) unit)

pub *-IsNonneg : {x y : Number} → IsNonneg x → IsPositive y → IsNonneg (x *ₙ y)
unfolding ◌*ₙ◌ inf_like
*-IsNonneg IsNonneg.infinite (IsPositive.finite m) = IsNonneg.infinite
*-IsNonneg (IsNonneg.finite n) (IsPositive.finite m) =
    rw (product_pos n (suc m)) (double-IsNonneg (n * suc m) unit)

pub *-IsNonneg_left : {x y : Number} → IsPositive x → IsNonneg y → IsNonneg (x *ₙ y)
unfolding ◌*ₙ◌ inf_like
*-IsNonneg_left (IsPositive.finite m) IsNonneg.infinite = IsNonneg.infinite
*-IsNonneg_left (IsPositive.finite m) (IsNonneg.finite n) =
    rw (product_pos (suc m) n) (double-IsNonneg (suc m * n) unit)

pub square-IsNonneg : {x : Number} → IsNonneg x → IsNonneg (x *ₙ x)
unfolding ◌*ₙ◌
square-IsNonneg IsNonneg.infinite = IsNonneg.infinite
square-IsNonneg (IsNonneg.finite n) = rw (product_pos n n) (double-IsNonneg (n * n) unit)

pub /-IsNonneg : {x y : Number} → IsNonneg x → IsPositive y → IsNonneg (x /ₙ y)
unfolding ◌/ₙ◌ div_fin
/-IsNonneg IsNonneg.infinite (IsPositive.finite m) = IsNonneg.infinite
/-IsNonneg (IsNonneg.finite n) (IsPositive.finite m) =
    rw (product_pos n unit) (double-IsNonneg (n * unit) (suc m))

pub sqrt-IsNonneg : {x : Number} → IsNonneg x → IsNonneg (sqrt x)
unfolding sqrt
sqrt-IsNonneg IsNonneg.infinite = IsNonneg.infinite
sqrt-IsNonneg (IsNonneg.finite n) = double-IsNonneg _ 2

pub ceil-IsNonneg : {x : Number} → IsNonneg x → IsNonneg (ceil x)
unfolding ceil
ceil-IsNonneg IsNonneg.infinite = IsNonneg.infinite
ceil-IsNonneg (IsNonneg.finite n) = IsNonneg.finite _

pub min-IsNonneg : {x y : Number} → IsNonneg x → IsNonneg y → IsNonneg (min x y)
unfolding min ◌<ₙ◌
min-IsNonneg IsNonneg.infinite IsNonneg.infinite = IsNonneg.infinite
min-IsNonneg IsNonneg.infinite (IsNonneg.finite m) = IsNonneg.finite m
min-IsNonneg (IsNonneg.finite n) IsNonneg.infinite = IsNonneg.finite n
min-IsNonneg (IsNonneg.finite n) (IsNonneg.finite m) = elim (Bool-cases (ltb (m + 0) (n + 0))) [
  | inl less ↦ rw less (IsNonneg.finite m)
  | inr more ↦ rw more (IsNonneg.finite n)
]

-- The lesser of a finite claim and a ceiling is finite, and at most both.
pub min-IsNonnegFinite : {x y : Number} → IsNonnegFinite x → IsNonneg y → IsNonnegFinite (min x y)
unfolding min ◌<ₙ◌
min-IsNonnegFinite (IsNonnegFinite.finite n) IsNonneg.infinite = IsNonnegFinite.finite n
min-IsNonnegFinite (IsNonnegFinite.finite n) (IsNonneg.finite m) =
    elim (Bool-cases (ltb (m + 0) (n + 0))) [
      | inl less ↦ rw less (IsNonnegFinite.finite m)
      | inr more ↦ rw more (IsNonnegFinite.finite n)
    ]

pub min-le_right : {x y : Number} → IsNonnegFinite x → IsNonneg y → min x y ≤ₙ y
unfolding min ◌<ₙ◌
min-le_right (IsNonnegFinite.finite n) IsNonneg.infinite = tt
min-le_right (IsNonnegFinite.finite n) (IsNonneg.finite m) = ground arith

pub min-le_left : {x y : Number} → IsNonnegFinite x → IsNonneg y → min x y ≤ₙ x
unfolding min ◌<ₙ◌
min-le_left (IsNonnegFinite.finite n) IsNonneg.infinite = omega arith
min-le_left (IsNonnegFinite.finite n) (IsNonneg.finite m) = ground arith

-- A claim that is not above its ceiling is left alone.
pub min-eq_left : {x y : Number} → IsNonnegFinite x → IsNonneg y → y <ₙ x ≡ false → min x y ≡ x
unfolding min ◌<ₙ◌
min-eq_left (IsNonnegFinite.finite n) IsNonneg.infinite h = refl
min-eq_left (IsNonnegFinite.finite n) (IsNonneg.finite m) h = rw h

pub le→not_lt : {x y : Number} → IsNonnegFinite x → IsNonneg y → x ≤ₙ y → y <ₙ x ≡ false
unfolding ◌<ₙ◌
le→not_lt (IsNonnegFinite.finite n) IsNonneg.infinite h = refl
le→not_lt (IsNonnegFinite.finite n) (IsNonneg.finite m) h = ground arith

pub not_lt→le : {x y : Number} → IsNonnegFinite x → IsNonneg y → y <ₙ x ≡ false → x ≤ₙ y
unfolding ◌<ₙ◌
not_lt→le (IsNonnegFinite.finite n) IsNonneg.infinite h = tt
not_lt→le (IsNonnegFinite.finite n) (IsNonneg.finite m) h = ground arith

pub min-ne_left : {x y : Number} → IsNonnegFinite x → IsNonneg y → y <ₙ x ≡ true → min x y ≢ x
unfolding min ◌<ₙ◌
min-ne_left (IsNonnegFinite.finite n) IsNonneg.infinite h = cc
min-ne_left (IsNonnegFinite.finite n) (IsNonneg.finite m) h = ground arith
