-- ===== src/Rarity/Refinement.antt =====
-- `scoreParts` computes the integer score: the claim of its comment that it is integer arithmetic.
use moltenpour.Prelude.{ℕ, ◌+◌, ◌-◌, ◌*◌, ◌≤◌, ◌≡◌, arith, ap, ap₂, ◌∙◌}
use moltenpour.Number.{Number, of_ℕ, ◌-ₙ◌, ◌*ₙ◌, ◌/ₙ◌, floor, round}
use moltenpour.Number.Exact.{of_ℕ-sub}
use moltenpour.Number.UpTo.{
  WholeUpTo, nat, WholeUpTo-nat, floor-WholeUpTo, round-WholeUpTo, *-UpTo, of_ℕ-UpTo,
  UpTo-of_WholeUpTo,
}
use moltenpour.Telemetry.Sim
use moltenpour.Telemetry.{Telemetry}
use moltenpour.Telemetry.Tiers.{tier_of, tier_of-lt}
use moltenpour.Telemetry.Ceilings.{ceilings_at}
use moltenpour.Telemetry.Bounds.{ceilings_at-AreUpTo, IsSmall}
use moltenpour.Rarity.Defs.{ScoreParts, permille, base_of, score_parts}
use moltenpour.Rarity.Integer.{
  permille_ℕ, permille-of_ℕ, mean_ℕ, score_ℕ, base-of_ℕ, reach-of_ℕ, score-of_ℕ,
}

-- What a pour is scored by: whole numbers read off the telemetry, and those of its ceilings.
pub record Measures : Type 0 where
  pub droplets : ℕ
  pub velocity : ℕ
  pub hold : ℕ
  pub tilt : ℕ
  pub max_droplets : ℕ
  pub max_speed : ℕ
  pub max_tilt : ℕ

abbrev pub measures : Telemetry → Number → Measures
measures t tier_index =
    let c = ceilings_at tier_index (floor t.hold_ms) in
    record {
      droplets = nat (floor t.droplets_landed);
      velocity = nat (round t.peak_velocity);
      hold = nat (floor t.hold_ms);
      tilt = nat (round (t.tilt_energy *ₙ of_ℕ 1000));
      max_droplets = nat c.max_droplets;
      max_speed = nat (round c.max_speed);
      max_tilt = nat (round (c.max_tilt *ₙ of_ℕ 1000));
    }

-- The components and the score, on natural numbers.
pub record Parts : Type 0 where
  pub fill : ℕ
  pub force : ℕ
  pub commitment : ℕ
  pub steadiness : ℕ
  pub score : ℕ

abbrev pub parts_of : Measures → ℕ → Parts
parts_of m tier =
    let fill = permille_ℕ m.droplets m.max_droplets in
    let force = permille_ℕ m.velocity m.max_speed in
    let commitment = permille_ℕ m.hold 15_000 in
    let steadiness = 1000 - permille_ℕ m.tilt m.max_tilt in
    record {
      fill = fill;
      force = force;
      commitment = commitment;
      steadiness = steadiness;
      score = score_ℕ (mean_ℕ fill force commitment steadiness) tier;
    }

abbrev pub as_numbers : Parts → ScoreParts
as_numbers p = record {
  fill = of_ℕ p.fill;
  force = of_ℕ p.force;
  commitment = of_ℕ p.commitment;
  steadiness = of_ℕ p.steadiness;
  score = of_ℕ p.score;
}

-- A component, where the value and its ceiling are whole and not too large.
component :
    {j k : ℕ} {x y : Number}
    → j ≤ 2_000_000_001
    → k ≤ 100_000_000
    → WholeUpTo j x
    → WholeUpTo k y
    → permille x y ≡ of_ℕ (permille_ℕ (nat x) (nat y))
component j_le k_le x_whole y_whole =
    let (ex, x_le) = WholeUpTo-nat x_whole in
    let (ey, y_le) = WholeUpTo-nat y_whole in
    ap₂ permille ex ey ∙ permille-of_ℕ _ _ (omega arith) (omega arith)

-- For telemetry as small as the clamp leaves it, every component and the score are the whole numbers
-- that the formula gives on natural numbers: no double is inexact on the way.
pub score_parts_lem :
    (t : Telemetry) (tier_index : Number)
    → IsSmall t
    → score_parts t tier_index ≡ as_numbers (parts_of (measures t tier_index) (tier_of tier_index))
unfolding score_parts Sim.max_pour_ms
score_parts_lem t tier_index small =
    let hold = floor-WholeUpTo small.hold in
    let c = ceilings_at-AreUpTo tier_index (UpTo-of_WholeUpTo hold) in
    let milli = *-UpTo {j = 2_000_000} {k = 1000} (omega arith) small.tilt (of_ℕ-UpTo 1000) in
    let max_milli = *-UpTo {j = 90_007} {k = 1000} (omega arith) c.tilt (of_ℕ-UpTo 1000) in
    let m = measures t tier_index in
    let p = parts_of m (tier_of tier_index) in
    let fill = component (omega arith) (omega arith) (floor-WholeUpTo small.droplets) c.droplets in
    let force =
      component (omega arith) (omega arith) (round-WholeUpTo small.velocity)
        (round-WholeUpTo c.speed) in
    let (hold_whole, hold_le) = WholeUpTo-nat hold in
    let commitment =
      ap (λ h. permille h (of_ℕ 15_000)) hold_whole
      ∙ permille-of_ℕ m.hold 15_000 (omega arith) (omega arith) in
    let tilt =
      component (omega arith) (omega arith) (round-WholeUpTo milli) (round-WholeUpTo max_milli) in
    let steadiness =
      ap (λ s. of_ℕ 1000 -ₙ s) tilt
      ∙ of_ℕ-sub 1000 (permille_ℕ m.tilt m.max_tilt) (omega arith) (omega arith) in
    let base =
      (λ i. base_of (fill i) (force i) (commitment i) (steadiness i))
      ∙ base-of_ℕ p.fill p.force p.commitment p.steadiness (omega arith) (omega arith) (omega arith)
          (omega arith) in
    let mean = mean_ℕ p.fill p.force p.commitment p.steadiness in
    let score =
      (λ i. floor (base i *ₙ reach-of_ℕ tier_index i /ₙ of_ℕ 100))
      ∙ score-of_ℕ mean (50 + 10 * tier_of tier_index) (omega arith)
          (omega (arith, tier_of-lt tier_index)) in
    λ i. record {
      fill = fill i;
      force = force i;
      commitment = commitment i;
      steadiness = steadiness i;
      score = score i;
    }
