-- ===== src/Sigil/Angles.antt =====
-- The angles of the drawing are finite, whatever is drawn.
use moltenpour.Prelude.{
  ℕ, suc, ◌+◌, ◌*◌, ◌^◌, ◌≤◌, ◌<◌, ◌≡◌, refl, arith, true, ℤ, pos, negsuc, ◌+ℤ◌,
}
use moltenpour.Number.{Number, fin, unit, double, ratio, running, is_finite, neg, ◌+ₙ◌, ◌-ₙ◌, ◌*ₙ◌}
use moltenpour.Number.UpTo.{UpTo, UpTo-mono, of_ℕ-UpTo, double-UpTo, *-UpTo, /-UpTo}
use moltenpour.Sigil.Reach.{Within, UpTo-Within, double-Within, times-Within}
use moltenpour.Sigil.Geometry.{angle, pi}

-- The magnitude.
abbrev size : ℤ → ℕ
size (pos n) = n
size (negsuc n) = suc n

Within-le : {k : ℕ} {z : ℤ} → Within k (fin z) → size z ≤ k * unit
Within-le (Within.ahead n h) = h
Within-le (Within.behind n h) = h

Within-of_le : (k : ℕ) (z : ℤ) → size z ≤ k * unit → Within k (fin z)
Within-of_le k (pos n) h = Within.ahead n h
Within-of_le k (negsuc n) h = Within.behind n h

size-sum : (a b : ℤ) → size (a +ℤ b) ≤ size a + size b
unfolding ◌+ℤ◌
size-sum (pos a) (pos b) = ground arith
size-sum (pos a) (negsuc b) = ground arith
size-sum (negsuc a) (pos b) = ground arith
size-sum (negsuc a) (negsuc b) = ground arith

rounded-Within : (k : ℕ) (z : ℤ) → k ≤ 2 ^ 52 → size z ≤ k * unit → Within (k + 1) (double z 1)
rounded-Within k (pos n) small h = UpTo-Within (double-UpTo k n 1 (omega arith) small (omega arith))
rounded-Within k (negsuc n) small h =
    double-Within (k + 1) (suc n) 1 (double-UpTo k (suc n) 1 (omega arith) small (omega arith))

-- A sum, of whatever signs.
+-Within :
    {j k : ℕ} {x y : Number}
    → j + k ≤ 2 ^ 52
    → Within j x
    → Within k y
    → Within (j + k + 1) (x +ₙ y)
unfolding ◌+ₙ◌
+-Within {j} {k} small (Within.ahead n h) (Within.ahead m i) =
    rounded-Within (j + k) (pos n +ℤ pos m) small (omega (arith, size-sum (pos n) (pos m)))
+-Within {j} {k} small (Within.ahead n h) (Within.behind m i) =
    rounded-Within (j + k) (pos n +ℤ negsuc m) small (omega (arith, size-sum (pos n) (negsuc m)))
+-Within {j} {k} small (Within.behind n h) (Within.ahead m i) =
    rounded-Within (j + k) (negsuc n +ℤ pos m) small (omega (arith, size-sum (negsuc n) (pos m)))
+-Within {j} {k} small (Within.behind n h) (Within.behind m i) =
    rounded-Within (j + k) (negsuc n +ℤ negsuc m) small
      (omega (arith, size-sum (negsuc n) (negsuc m)))

Within-finite : {k : ℕ} {x : Number} → Within k x → is_finite x ≡ true
unfolding is_finite
Within-finite (Within.ahead n h) = refl
Within-finite (Within.behind n h) = refl

pi-UpTo : UpTo 4 pi
unfolding running
pi-UpTo = UpTo.up_to _ (omega arith)

angle-UpTo : (i n : ℕ) → 0 < n → i ≤ 100 → UpTo 1000 (angle i n)
unfolding angle
angle-UpTo i n h le =
    let turn = UpTo-mono {k = 101} (omega arith) (/-UpTo n h (omega arith) (of_ℕ-UpTo i)) in
    UpTo-mono (omega arith) (
      *-UpTo {j = 405} {k = 2} (omega arith) (*-UpTo {j = 101} {k = 4} (omega arith) turn pi-UpTo)
        (of_ℕ-UpTo 2))

offset-Within : Within 1 (ratio 18 100)
unfolding running
offset-Within = Within.ahead _ (omega arith)

minus_half-Within : Within 1 (neg (ratio 5 10))
unfolding running
minus_half-Within = Within.behind _ (omega arith)

spread-UpTo : UpTo 1 (ratio 8 100)
unfolding running
spread-UpTo = UpTo.up_to _ (omega arith)

-- The angle of a tendril, and of a satellite for a draw.
pub tendril_finite : (i : ℕ) → i ≤ 100 → is_finite (angle i 9 +ₙ ratio 18 100) ≡ true
tendril_finite i le = Within-finite (
    +-Within {j = 1000} {k = 1} (omega arith) (UpTo-Within (angle-UpTo i 9 (omega arith) le))
      offset-Within)

pub satellite_finite :
    (i : ℕ) (d : Number)
    → i ≤ 100
    → UpTo 1 d
    → is_finite (angle i 26 +ₙ (d -ₙ ratio 5 10) *ₙ ratio 8 100) ≡ true
unfolding ◌-ₙ◌
satellite_finite i d le h =
    let shift = +-Within {j = 1} {k = 1} (omega arith) (UpTo-Within h) minus_half-Within in
    Within-finite (
      +-Within {j = 1000} {k = 4} (omega arith) (UpTo-Within (angle-UpTo i 26 (omega arith) le))
        (times-Within {j = 3} {k = 1} (omega arith) shift spread-UpTo))
