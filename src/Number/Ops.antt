-- ===== src/Number/Ops.antt =====
-- The operators of Number, and the functions of Math that IEEE 754 fixes exactly.
use moltenpour.Prelude.{ℕ, zero, suc, ◌+◌, ◌-◌, ◌*◌, ◌/◌, ◌%◌, ◌^◌, ◌==◌, if◌then◌else◌}
use moltenpour.Prelude.{ℤ, pos, negsuc, neg_ℕ, neg_ℤ, nat_abs, ◌+ℤ◌, ◌*ℤ◌}
use moltenpour.Number.Rounding.{
  round_ratio, isqrt, bit_length, nearest, round_at, bit_length_from, isqrt_bits,
}
use moltenpour.Number.Value.{
  Number, nan, pos_inf, neg_inf, fin, unit, double, pos_mag, neg_mag, overflow, of_ℕ, ratio,
  is_finite, ◌<ₙ◌, ◌<=ₙ◌,
}

unfoldable pub neg : Number → Number
neg nan = nan
neg pos_inf = neg_inf
neg neg_inf = pos_inf
neg (fin z) = fin (neg_ℤ z)

infixl 65 ◌+ₙ◌ ◌-ₙ◌
infixl 70 ◌*ₙ◌ ◌/ₙ◌
unfoldable pub ◌+ₙ◌ : Number → Number → Number
nan +ₙ b = nan
a +ₙ nan = nan
fin a +ₙ fin b = double (a +ℤ b) 1
fin a +ₙ pos_inf = pos_inf
fin a +ₙ neg_inf = neg_inf
pos_inf +ₙ neg_inf = nan
pos_inf +ₙ b = pos_inf
neg_inf +ₙ pos_inf = nan
neg_inf +ₙ b = neg_inf

unfoldable pub ◌-ₙ◌ : Number → Number → Number
a -ₙ b = a +ₙ neg b

-- An infinity with the sign of z; NaN for zero.
unfoldable pub inf_like : ℤ → Number
inf_like (pos zero) = nan
inf_like (pos (suc n)) = pos_inf
inf_like (negsuc n) = neg_inf

unfoldable pub ◌*ₙ◌ : Number → Number → Number
nan *ₙ b = nan
a *ₙ nan = nan
fin a *ₙ fin b = double (a *ℤ b) unit
fin a *ₙ pos_inf = inf_like a
fin a *ₙ neg_inf = neg (inf_like a)
pos_inf *ₙ fin b = inf_like b
pos_inf *ₙ pos_inf = pos_inf
pos_inf *ₙ neg_inf = neg_inf
neg_inf *ₙ fin b = neg (inf_like b)
neg_inf *ₙ pos_inf = neg_inf
neg_inf *ₙ neg_inf = pos_inf

-- The quotient of two finite numbers.
unfoldable pub div_fin : ℤ → ℤ → Number
div_fin a (pos zero) = inf_like a
div_fin a (pos (suc n)) = double (a *ℤ pos unit) (suc n)
div_fin a (negsuc n) = double (neg_ℤ a *ℤ pos unit) (suc n)

unfoldable pub ◌/ₙ◌ : Number → Number → Number
nan /ₙ b = nan
a /ₙ nan = nan
fin a /ₙ fin b = div_fin a b
fin a /ₙ pos_inf = fin (pos zero)
fin a /ₙ neg_inf = fin (pos zero)
pos_inf /ₙ fin (pos n) = pos_inf
pos_inf /ₙ fin (negsuc n) = neg_inf
neg_inf /ₙ fin (pos n) = neg_inf
neg_inf /ₙ fin (negsuc n) = pos_inf
pos_inf /ₙ b = nan
neg_inf /ₙ b = nan

-- `Math.sqrt`. What lies between two whole numbers of units is rounded as if halfway, which is the
-- same double, since the root of a positive double has far more than 53 binary digits in units.
unfoldable pub sqrt : Number → Number
sqrt nan = nan
sqrt pos_inf = pos_inf
sqrt neg_inf = nan
sqrt (fin (pos n)) =
    let s = isqrt (n * unit) in double (pos (2 * s + (if s * s == n * unit then 0 else 1))) 2
sqrt (fin (negsuc n)) = nan

-- `Math.floor`, `Math.ceil` and `Math.round`, the last with halves upward.
unfoldable pub floor : Number → Number
floor (fin (pos n)) = fin (pos (n / unit * unit))
floor (fin (negsuc n)) = fin (neg_ℕ ((n / unit + 1) * unit))
floor x = x

unfoldable pub ceil : Number → Number
ceil (fin (pos n)) = fin (pos ((n + (unit - 1)) / unit * unit))
ceil (fin (negsuc n)) = fin (neg_ℕ (suc n / unit * unit))
ceil x = x

unfoldable pub round : Number → Number
round (fin (pos n)) = fin (pos ((2 * n + unit) / (2 * unit) * unit))
round (fin (negsuc n)) = fin (neg_ℕ ((2 * suc n + unit - 1) / (2 * unit) * unit))
round x = x

-- `Math.min` and `Math.max`: NaN where either is NaN.
unfoldable pub min : Number → Number → Number
min nan b = nan
min a nan = nan
min a b = if b <ₙ a then b else a

unfoldable pub max : Number → Number → Number
max nan b = nan
max a nan = nan
max a b = if a <ₙ b then b else a

unfoldable pub abs : Number → Number
abs nan = nan
abs pos_inf = pos_inf
abs neg_inf = pos_inf
abs (fin z) = fin (pos (nat_abs z))

-- `x >>> 0`: truncation toward zero, modulo 2 ^ 32; 0 for NaN and the infinities.
unfoldable pub to_uint32 : Number → ℕ
to_uint32 (fin (pos n)) = n / unit % 2 ^ 32
to_uint32 (fin (negsuc n)) = (2 ^ 32 - suc n / unit % 2 ^ 32) % 2 ^ 32
to_uint32 nan = 0
to_uint32 pos_inf = 0
to_uint32 neg_inf = 0

-- What a test that computes with numbers unfolds.
unfoldable pub running : Unit {0}
unfolding unit overflow pos_mag neg_mag double of_ℕ ratio ◌<ₙ◌ ◌<=ₙ◌ is_finite ◌+ℤ◌ ◌*ℤ◌ neg ◌+ₙ◌
    ◌-ₙ◌ inf_like ◌*ₙ◌ div_fin ◌/ₙ◌ sqrt floor ceil round min max abs to_uint32 round_ratio isqrt
    bit_length nearest round_at bit_length_from isqrt_bits
running = tt
