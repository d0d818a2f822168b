-- ===== src/Sigil/Inside.antt =====
-- The drawing stays inside the viewBox.
use moltenpour.Prelude.{ℕ, zero, suc, ◌+◌, ◌≤◌, ◌≡◌, refl, arith, true, All}
use moltenpour.Number.{Number, of_ℕ, is_finite}
use moltenpour.Number.UpTo.{UpTo, UpTo-mono}
use moltenpour.Text.{Text, to_fixed}
use moltenpour.Sigil.Rng.{draw}
use moltenpour.Sigil.Reach.{
  Within, draw-UpTo, coordinate-UpTo, tendril_root-UpTo, tendril_reach-UpTo, satellite_reach-UpTo,
}
use moltenpour.Sigil.Angles.{tendril_finite, satellite_finite}
use moltenpour.Sigil.Geometry.{
  Tendril, Satellite, generated, generate_sigil, tendrils_from, satellites_from, coordinate,
}

-- A printed coordinate that lies in the viewBox, with a margin of four.
abbrev pub IsVisible : Text → Type 0
IsVisible t = (c : Number) × ((t ≡ to_fixed 1 c) × UpTo 396 c)

abbrev pub TendrilVisible : Tendril → Type 0
TendrilVisible t = IsVisible t.x1 × IsVisible t.y1 × IsVisible t.x2 × IsVisible t.y2

abbrev pub SatelliteVisible : Satellite → Type 0
SatelliteVisible s = IsVisible s.cx × IsVisible s.cy

visible :
    (k : ℕ) (d r : Number)
    → k ≤ 194
    → Within 1 d
    → UpTo k r
    → IsVisible (to_fixed 1 (coordinate (of_ℕ 200) d r))
visible k d r small h u = (
  coordinate (of_ℕ 200) d r,
  (refl, UpTo-mono (omega arith) (coordinate-UpTo {k = k} (omega arith) h u)),
)

-- What is relied on of the engine's cosine and sine: at a finite number they are at most one in magnitude.
abbrev pub IsBounded : (Number → Number) → Type 0
IsBounded f = (a : Number) → is_finite a ≡ true → Within 1 (f a)

module _ (cos sin : Number → Number) (cos-IsBounded : IsBounded cos)
    (sin-IsBounded : IsBounded sin) where
  tendrils_visible :
      (left i s : ℕ) → i + left ≤ 100 → All TendrilVisible (tendrils_from cos sin left i s).0
  unfolding tendrils_from
  tendrils_visible zero i s le = tt
  tendrils_visible (suc left) i s le =
      let reach = tendril_reach-UpTo _ (draw-UpTo s) in
      let finite = tendril_finite i (omega arith) in
      (
        (
          visible 75 _ _ (omega arith) (cos-IsBounded _ finite) tendril_root-UpTo,
          visible 75 _ _ (omega arith) (sin-IsBounded _ finite) tendril_root-UpTo,
          visible 194 _ _ (omega arith) (cos-IsBounded _ finite) reach,
          visible 194 _ _ (omega arith) (sin-IsBounded _ finite) reach,
        ),
        tendrils_visible left (i + 1) _ (omega arith),
      )

  satellites_visible :
      (left i s : ℕ) → i + left ≤ 100 → All SatelliteVisible (satellites_from cos sin left i s).0
  unfolding satellites_from
  satellites_visible zero i s le = tt
  satellites_visible (suc left) i s le =
      let reach = satellite_reach-UpTo _ (draw-UpTo (draw s).1) in
      let finite = satellite_finite i _ (omega arith) (draw-UpTo s) in
      (
        (
          visible 193 _ _ (omega arith) (cos-IsBounded _ finite) reach,
          visible 193 _ _ (omega arith) (sin-IsBounded _ finite) reach,
        ),
        satellites_visible left (i + 1) _ (omega arith),
      )

-- Where the engine's cosine and sine of a finite number are at most one in magnitude, every tendril of a
-- sigil starts and ends, and every satellite stands, inside the viewBox: each printed coordinate is that
-- of a number from 0 to 396, of 400.
pub generate_sigil-visible :
    (cos sin : Number → Number) (seed : ℕ)
    → IsBounded cos
    → IsBounded sin
    → All TendrilVisible (generate_sigil cos sin seed).tendrils
      × All SatelliteVisible (generate_sigil cos sin seed).satellites
unfolding generate_sigil generated
generate_sigil-visible cos sin seed c s = (
  tendrils_visible cos sin c s 9 0 _ (omega arith),
  satellites_visible cos sin c s 26 0 _ (omega arith),
)
