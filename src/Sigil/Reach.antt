-- ===== src/Sigil/Reach.antt =====
-- How far from the center the drawing goes.
use native.Mathlib.Nat.{mul-le-mul_right, mul-le-mul_left, div-add-mod, mod-lt}
use moltenpour.Prelude.{
  ℕ, zero, suc, ◌+◌, ◌-◌, ◌*◌, ◌/◌, ◌^◌, ◌≤◌, ◌<◌, ◌≡◌, refl, arith, ap, ◌∙◌, ltb,
}
use moltenpour.Prelude.{pos, negsuc, neg_ℕ, sub_ℕ, ap₂, Bool-cases, inl, inr, ◌+ℤ◌, ◌*ℤ◌}
use moltenpour.Number.{
  Number, ◌<ₙ◌, fin, pos_inf, unit, double, of_ℕ, ratio, running, floor, min, overflow, neg_mag,
  pos_mag, ◌+ₙ◌, ◌*ₙ◌, ◌/ₙ◌,
}
use moltenpour.Number.Whole.{unit-pos}
use moltenpour.Number.Quotient.{floor_quotient}
use moltenpour.Number.UpTo.{UpTo, UpTo-mono, of_ℕ-UpTo, double-UpTo, +-UpTo, *-UpTo, /-UpTo}
use moltenpour.Sigil.Rng.{scramble, next_state, draw}
use moltenpour.Sigil.Geometry.{tendril_root, tendril_reach, satellite_reach, coordinate}

-- At most k, in either direction.
pub data Within (k : ℕ) : Number → Type 0 where
  ahead : (n : ℕ) → n ≤ k * unit → Within k (fin (pos n))
  behind : (n : ℕ) → suc n ≤ k * unit → Within k (fin (negsuc n))

fin_pos-injective : (a b : ℕ) → fin (pos a) ≡ fin (pos b) → a ≡ b
fin_pos-injective a b e = cc

no_whole : (n : ℕ) → n / unit * unit ≡ 0 * unit → n < unit
no_whole n e = omega (arith, e, div-add-mod n unit, mod-lt n unit-pos)

below_one : (x : Number) (k : ℕ) → UpTo k x → floor x ≡ of_ℕ 0 → UpTo 1 x
unfolding floor of_ℕ
below_one x k (UpTo.up_to n h) e =
    UpTo.up_to n (omega (arith, no_whole n (fin_pos-injective _ _ e)))

scramble-lt : (a : ℕ) → scramble a < 2 ^ 32
unfolding scramble
scramble-lt a = omega arith

-- 32 bits over 2 ^ 32.
pub quotient-UpTo : (k : ℕ) → k < 2 ^ 32 → UpTo 1 (of_ℕ k /ₙ of_ℕ 4294967296)
quotient-UpTo k lt =
    let none : k / 4294967296 ≡ 0 = omega arith in
    below_one _ _ (/-UpTo 4294967296 (omega arith) (omega arith) (of_ℕ-UpTo k))
      (floor_quotient k 4294967296 (omega arith) (omega arith) (omega arith) ∙ ap of_ℕ none)

-- A draw is a number from zero to one.
pub draw-UpTo : (s : ℕ) → UpTo 1 (draw s).0
unfolding draw
draw-UpTo s = quotient-UpTo (scramble (next_state s)) (scramble-lt (next_state s))

-- The product of a direction and a distance.
pub sub_negsuc : (a n : ℕ) → suc n ≤ a → pos a +ℤ negsuc n ≡ pos (a - suc n)
unfolding ◌+ℤ◌
sub_negsuc a n h = ground arith

sub_from_zero : (p : ℕ) → sub_ℕ 0 p ≡ neg_ℕ p
sub_from_zero zero = refl
sub_from_zero (suc p) = ground arith

product_negsuc : (n m : ℕ) → negsuc n *ℤ pos m ≡ neg_ℕ (suc n * m)
unfolding ◌*ℤ◌
product_negsuc n m = ap₂ sub_ℕ (omega arith) (omega arith) ∙ sub_from_zero (suc n * m)

pub UpTo-Within : {k : ℕ} {x : Number} → UpTo k x → Within k x
UpTo-Within (UpTo.up_to n h) = Within.ahead n h

fin-UpTo : {k m : ℕ} → UpTo k (fin (pos m)) → m ≤ k * unit
fin-UpTo (UpTo.up_to n h) = h

infinite-UpTo : {k : ℕ} → UpTo k pos_inf → ⊥
infinite-UpTo h = elim h [ ]

fin_neg-Within : (k m : ℕ) → m ≤ k * unit → Within k (fin (neg_ℕ m))
fin_neg-Within k zero h = Within.ahead 0 (omega arith)
fin_neg-Within k (suc m) h = Within.behind m h

neg_mag-Within : (k m : ℕ) → UpTo k (pos_mag m) → Within k (neg_mag m)
unfolding pos_mag neg_mag
neg_mag-Within k m h = elim (Bool-cases (ltb m overflow)) [
  | inl fits ↦ rw fits (fin_neg-Within k m (fin-UpTo (rw fits at h)))
  | inr over ↦ absurd (infinite-UpTo (rw over at h))
]

pub double-Within : (k p d : ℕ) → UpTo k (double (pos p) d) → Within k (double (neg_ℕ p) d)
unfolding double
double-Within k zero d h = UpTo-Within h
double-Within k (suc p) d h = neg_mag-Within k _ h

-- A product with a number from zero on.
pub times-Within :
    {j k : ℕ} {x y : Number} → j * k ≤ 2 ^ 52 → Within j x → UpTo k y → Within (j * k + 1) (x *ₙ y)
unfolding ◌*ₙ◌
times-Within {j} {k} small (Within.ahead n h) d =
    let x : UpTo j (fin (pos n)) = UpTo.up_to n h in UpTo-Within (*-UpTo {j = j} {k = k} small x d)
times-Within {j} {k} small (Within.behind n h) (UpTo.up_to m i) =
    let product : suc n * m ≤ j * unit * (k * unit) =
      omega (arith, mul-le-mul_right m h, mul-le-mul_left (j * unit) i) in
    rw (product_negsuc n m) (
      double-Within (j * k + 1) (suc n * m) unit
        (double-UpTo (j * k) (suc n * m) unit unit-pos small (omega (arith, product))))

-- Added to the center, it stays on the positive side.
center-UpTo : {k : ℕ} {x : Number} → k ≤ 200 → Within k x → UpTo (200 + k + 1) (of_ℕ 200 +ₙ x)
center-UpTo {k} small (Within.ahead n h) =
    let x : UpTo k (fin (pos n)) = UpTo.up_to n h in +-UpTo (omega arith) (of_ℕ-UpTo 200) x
center-UpTo {k} small (Within.behind n h) =
    unfold ◌+ₙ◌ of_ℕ in
    rw (sub_negsuc (200 * unit) n (omega (arith, mul-le-mul_right unit small))) (
      UpTo-mono (omega arith)
        (double-UpTo 200 (200 * unit - suc n) 1 (omega arith) (omega arith) (omega arith)))

pub coordinate-UpTo :
    {k : ℕ} {direction distance : Number}
    → k ≤ 199
    → Within 1 direction
    → UpTo k distance
    → UpTo (k + 202) (coordinate (of_ℕ 200) direction distance)
unfolding coordinate
coordinate-UpTo {k} small d r =
    UpTo-mono (omega arith)
      (center-UpTo {k = 1 * k + 1} (omega arith) (times-Within {j = 1} {k = k} (omega arith) d r))

ratio-UpTo : UpTo 1 (ratio 94 100)
unfolding running
ratio-UpTo = UpTo.up_to _ (omega arith)

pub tendril_root-UpTo : UpTo 75 tendril_root
unfolding tendril_root
tendril_root-UpTo = *-UpTo {j = 74} {k = 1} (omega arith) (of_ℕ-UpTo 74) ratio-UpTo

min-UpTo_left : {j k : ℕ} {x y : Number} → UpTo j x → UpTo k y → UpTo j (min x y)
unfolding min ◌<ₙ◌
min-UpTo_left (UpTo.up_to n h) (UpTo.up_to m i) = elim (Bool-cases (ltb (m + 0) (n + 0))) [
  | inl less ↦ rw less (UpTo.up_to m (ground arith))
  | inr more ↦ rw more (UpTo.up_to n h)
]

pub tendril_reach-UpTo : (r : Number) → UpTo 1 r → UpTo 194 (tendril_reach r)
unfolding tendril_reach
tendril_reach-UpTo r h =
    let root = +-UpTo {j = 75} {k = 32} (omega arith) tendril_root-UpTo (of_ℕ-UpTo 32) in
    let part = *-UpTo {j = 1} {k = 100} (omega arith) h (of_ℕ-UpTo 100) in
    min-UpTo_left (of_ℕ-UpTo 194) (+-UpTo {j = 108} {k = 101} (omega arith) root part)

pub satellite_reach-UpTo : (r : Number) → UpTo 1 r → UpTo 193 (satellite_reach r)
unfolding satellite_reach
satellite_reach-UpTo r h =
    let part = *-UpTo {j = 1} {k = 74} (omega arith) h (of_ℕ-UpTo 74) in
    let edge = +-UpTo {j = 74} {k = 42} (omega arith) (of_ℕ-UpTo 74) (of_ℕ-UpTo 42) in
    +-UpTo {j = 117} {k = 75} (omega arith) edge part
