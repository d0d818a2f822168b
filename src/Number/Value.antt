-- ===== src/Number/Value.antt =====
-- The values of Number, their order, and the rounding of exact results to them.
use moltenpour.Prelude.{ℕ, suc, ◌*◌, ◌^◌, Bool, true, false, not, ltb, if◌then◌else◌}
use moltenpour.Prelude.{ℤ, pos, negsuc, neg_ℕ, ltb_ℤ}
use moltenpour.Number.Rounding.{round_ratio}

-- A finite double is a whole multiple of 2 ^ -1074, the least positive one: `fin z` is z times that.
pub data Number : Type 0 where
  nan : Number
  pos_inf : Number
  neg_inf : Number
  fin : ℤ → Number

-- 1, in these units.
unfoldable pub unit : ℕ
unit = 2 ^ 1074

-- 2 ^ 1024, in these units: what rounds to this or more overflows.
unfoldable pub overflow : ℕ
overflow = 2 ^ 2098

-- The number with a given rounded magnitude.
unfoldable pub pos_mag : ℕ → Number
pos_mag m = if ltb m overflow then fin (pos m) else pos_inf

unfoldable pub neg_mag : ℕ → Number
neg_mag m = if ltb m overflow then fin (neg_ℕ m) else neg_inf

-- The double nearest to z / d units.
unfoldable pub double : ℤ → ℕ → Number
double (pos n) d = pos_mag (round_ratio 53 0 n d)
double (negsuc n) d = neg_mag (round_ratio 53 0 (suc n) d)

-- A whole number below 2 ^ 53, and a decimal literal n / d.
unfoldable pub of_ℕ : ℕ → Number
of_ℕ n = fin (pos (n * unit))

unfoldable pub ratio : ℕ → ℕ → Number
ratio n d = double (pos (n * unit)) d

-- `a < b`: false where either is NaN.
infix 50 ◌<ₙ◌
unfoldable pub ◌<ₙ◌ : Number → Number → Bool
nan <ₙ b = false
a <ₙ nan = false
fin a <ₙ fin b = ltb_ℤ a b
neg_inf <ₙ neg_inf = false
neg_inf <ₙ fin b = true
neg_inf <ₙ pos_inf = true
fin a <ₙ neg_inf = false
fin a <ₙ pos_inf = true
pos_inf <ₙ b = false

-- `a <= b`: false where either is NaN.
infix 50 ◌<=ₙ◌
unfoldable pub ◌<=ₙ◌ : Number → Number → Bool
nan <=ₙ b = false
a <=ₙ nan = false
a <=ₙ b = not (b <ₙ a)

-- `Number.isFinite`.
unfoldable pub is_finite : Number → Bool
is_finite (fin z) = true
is_finite nan = false
is_finite pos_inf = false
is_finite neg_inf = false
