-- ===== src/Server/Floats.antt =====
-- The functions of Go's `math` that api/sigil calls, on float64, and the conversions between floats and
-- integers. Each operation is rounded by itself, as on amd64. An int is one that float64 holds exactly.
use moltenpour.Prelude.{
  ℕ, suc, ◌*◌, ◌/◌, ◌%◌, Bool, true, false, if◌then◌else◌, ℤ, pos, negsuc, neg_ℕ,
}
use moltenpour.Number.{Number, nan, pos_inf, neg_inf, fin, unit, of_ℕ, neg, ◌<ₙ◌}

-- `float64(i)`.
unfoldable pub float : ℤ → Number
float (pos n) = of_ℕ n
float (negsuc n) = neg (of_ℕ (suc n))

unfoldable pub is_nan : Number → Bool
is_nan nan = true
is_nan x = false

-- `math.IsInf(x, 0)`.
unfoldable pub is_inf : Number → Bool
is_inf pos_inf = true
is_inf neg_inf = true
is_inf x = false

-- `math.Min`: negative infinity comes before NaN.
unfoldable pub math_min : Number → Number → Number
math_min neg_inf y = neg_inf
math_min x neg_inf = neg_inf
math_min nan y = nan
math_min x nan = nan
math_min x y = if x <ₙ y then x else y

-- `math.Trunc`.
unfoldable pub trunc : Number → Number
trunc (fin (pos n)) = fin (pos (n / unit * unit))
trunc (fin (negsuc n)) = fin (neg_ℕ (suc n / unit * unit))
trunc x = x

-- `math.Mod(x, m)` of a finite x, for a whole m above zero: exact, with the sign of x.
unfoldable pub math_mod : Number → ℕ → Number
math_mod (fin (pos n)) m = fin (pos (n % (m * unit)))
math_mod (fin (negsuc n)) m = fin (neg_ℕ (suc n % (m * unit)))
math_mod x m = nan

-- `uint32(x)` of a whole x from 0 to 2 ^ 32 - 1.
unfoldable pub to_word : Number → ℕ
to_word (fin (pos n)) = n / unit
to_word x = 0
