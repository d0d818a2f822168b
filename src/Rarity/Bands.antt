-- ===== src/Rarity/Bands.antt =====
-- The classification of a whole score, and the order of classifications.
use native.Mathlib.Nat.{div-le_of_le-mul, mul-le-mul_right, div-mul-le_self}
use moltenpour.Prelude.{
  ◌∙◌, zero, suc, subst, sym, ℕ, ◌+◌, ◌*◌, ◌/◌, ◌≤◌, ◌≡◌, arith, leb, if◌then◌else◌, ap,
}
use moltenpour.Number.{Number, of_ℕ, floor, round, unit}
use moltenpour.Number.Order.{◌≤ₙ◌}
use moltenpour.Number.UpTo.{UpTo, nat}
use moltenpour.Number.Quotient.{le-quotient}
use moltenpour.Number.Whole.{whole_div}
use moltenpour.Rarity.Defs.{Rarity, band, thresholds, classify, pour_score}
use moltenpour.Rarity.Integer.{le-of_ℕ, mean_ℕ, permille_ℕ}
use moltenpour.Rarity.Refinement.{score_parts_lem, measures, parts_of, Measures}
use moltenpour.Telemetry.{Telemetry}
use moltenpour.Telemetry.Tiers.{tier_of}
use moltenpour.Telemetry.Bounds.{IsSmall}

-- The place of a classification in `RARITIES`.
abbrev pub rank : Rarity → ℕ
rank Rarity.common = 0
rank Rarity.uncommon = 1
rank Rarity.rare = 2
rank Rarity.singular = 3

abbrev pub band_ℕ : ℕ → Rarity
band_ℕ score =
    if leb 771 score
    then Rarity.singular
    else if leb 665 score
    then Rarity.rare
    else if leb 533 score
    then Rarity.uncommon
    else Rarity.common

pub band-of_ℕ : (score : ℕ) → band (of_ℕ score) ≡ band_ℕ score
unfolding band thresholds
band-of_ℕ score = rw (le-of_ℕ 771 score, le-of_ℕ 665 score, le-of_ℕ 533 score) (ground arith)

pub band_ℕ-mono : (s t : ℕ) → s ≤ t → rank (band_ℕ s) ≤ rank (band_ℕ t)
band_ℕ-mono s t h = ground arith

-- The classification of clamped telemetry, in integers.
pub classify_lem :
    (t : Telemetry) (tier_index : Number)
    → IsSmall t
    → classify t tier_index ≡ band_ℕ (parts_of (measures t tier_index) (tier_of tier_index)).score
unfolding classify pour_score
classify_lem t tier_index small =
    ap (λ p. band p.score) (score_parts_lem t tier_index small) ∙ band-of_ℕ _

-- No score of a tier is above ten times its reach.
pub score-le : (m : Measures) (tier : ℕ) → (parts_of m tier).score ≤ 500 + 100 * tier
score-le m tier =
    let p = parts_of m tier in
    let mean = mean_ℕ p.fill p.force p.commitment p.steadiness in
    let mean_le : mean ≤ 1000 = omega arith in
    div-le_of_le-mul 100 (omega (arith, mul-le-mul_right (50 + 10 * tier) mean_le))

-- Telemetry whose two earning measures are at least as large, at the same hold and tilt.
pub record IsAtLeast (t u : Telemetry) : Type 0 where
  pub droplets : t.droplets_landed ≤ₙ u.droplets_landed
  pub velocity : t.peak_velocity ≤ₙ u.peak_velocity
  pub hold : t.hold_ms ≡ u.hold_ms
  pub tilt : t.tilt_energy ≡ u.tilt_energy

quotient_mono : (v w m : ℕ) → v ≤ w → v / m ≤ w / m
quotient_mono v w zero h = omega arith
quotient_mono v w (suc m) h =
    le-quotient (v / suc m) w (suc m) (omega arith) (omega (arith, div-mul-le_self v (suc m)))

permille_mono : (v w m : ℕ) → v ≤ w → permille_ℕ v m ≤ permille_ℕ w m
permille_mono v w m h = omega (arith, quotient_mono (v * 1000) (w * 1000) m (omega arith))

parts_of_mono :
    (m n : Measures) (tier : ℕ)
    → m.droplets ≤ n.droplets
    → m.velocity ≤ n.velocity
    → (parts_of m tier).score
      ≤ (parts_of (record m { droplets = n.droplets; velocity = n.velocity }) tier).score
parts_of_mono m n tier d v =
    let p = parts_of m tier in
    let q = parts_of (record m { droplets = n.droplets; velocity = n.velocity }) tier in
    let mean = mean_ℕ p.fill p.force p.commitment p.steadiness in
    let mean' = mean_ℕ q.fill q.force q.commitment q.steadiness in
    let mean_le : mean ≤ mean' = omega (
      arith,
      permille_mono m.droplets n.droplets m.max_droplets d,
      permille_mono m.velocity n.velocity m.max_speed v,
    ) in
    quotient_mono (mean * (50 + 10 * tier)) (mean' * (50 + 10 * tier)) 100
      (mul-le-mul_right (50 + 10 * tier) mean_le)

floor_mono : {x y : Number} {j k : ℕ} → UpTo j x → UpTo k y → x ≤ₙ y → nat (floor x) ≤ nat (floor y)
unfolding nat floor
floor_mono (UpTo.up_to n h) (UpTo.up_to m i) le =
    rw (whole_div (n / unit), whole_div (m / unit)) (quotient_mono n m unit (omega arith))

round_mono : {x y : Number} {j k : ℕ} → UpTo j x → UpTo k y → x ≤ₙ y → nat (round x) ≤ nat (round y)
unfolding nat round
round_mono (UpTo.up_to n h) (UpTo.up_to m i) le =
    rw (whole_div ((2 * n + unit) / (2 * unit)), whole_div ((2 * m + unit) / (2 * unit)))
      (quotient_mono (2 * n + unit) (2 * m + unit) (2 * unit) (omega arith))

-- The same telemetry with other droplets and another peak.
abbrev with_earned : Telemetry → Telemetry → Telemetry
with_earned t u = record t { droplets_landed = u.droplets_landed; peak_velocity = u.peak_velocity }

with_earned_mono :
    (t u : Telemetry) (tier_index : Number)
    → IsSmall t
    → IsSmall (with_earned t u)
    → IsAtLeast t u
    → rank (classify t tier_index) ≤ rank (classify (with_earned t u) tier_index)
with_earned_mono t u tier_index st su a =
    let m = measures t tier_index in
    let n = measures (with_earned t u) tier_index in
    rw (classify_lem t tier_index st, classify_lem (with_earned t u) tier_index su)
      (band_ℕ-mono (parts_of m (tier_of tier_index)).score (parts_of n (tier_of tier_index)).score (
        parts_of_mono m n (tier_of tier_index) (floor_mono st.droplets su.droplets a.droplets)
          (round_mono st.velocity su.velocity a.velocity)))

-- More droplets or a higher peak, at the same hold, tilt and tier, never lower the classification.
-- Both telemetries are as small as the clamp leaves them.
pub classify_mono :
    (t u : Telemetry) (tier_index : Number)
    → IsSmall t
    → IsSmall u
    → IsAtLeast t u
    → rank (classify t tier_index) ≤ rank (classify u tier_index)
classify_mono t u tier_index st su a =
    let same : with_earned t u ≡ u = λ i. record u { hold_ms = a.hold i; tilt_energy = a.tilt i } in
    subst (λ w. rank (classify t tier_index) ≤ rank (classify w tier_index)) same
      (with_earned_mono t u tier_index st (subst IsSmall (sym same) su) a)
