-- ===== src/Rarity/Defs.antt =====
-- app/sigil/rarity.ts: the pour score and the classification that it earns.
use moltenpour.Prelude.{if◌then◌else◌}
use moltenpour.Number.{Number, of_ℕ, ◌<ₙ◌, ◌<=ₙ◌, ◌+ₙ◌, ◌-ₙ◌, ◌*ₙ◌, ◌/ₙ◌, floor, round}
use moltenpour.Telemetry.{Telemetry, telemetry_ceilings, clamp_tier_index}
use moltenpour.Telemetry.Sim

-- `RARITIES`, in their order.
pub data Rarity : Type 0 where
  common uncommon rare singular : Rarity

-- `THRESHOLDS`.
pub record Thresholds : Type 0 where
  pub uncommon : Number
  pub rare : Number
  pub singular : Number

unfoldable pub thresholds : Thresholds
thresholds = record { uncommon = of_ℕ 533; rare = of_ℕ 665; singular = of_ℕ 771 }

unfoldable pub tier_reach_base : Number
tier_reach_base = of_ℕ 50

unfoldable pub tier_reach_step : Number
tier_reach_step = of_ℕ 10

pub record ScoreParts : Type 0 where
  pub fill : Number
  pub force : Number
  pub commitment : Number
  pub steadiness : Number
  pub score : Number

-- The closure `permille` of `scoreParts`.
unfoldable pub permille : Number → Number → Number
permille value most =
    let p = floor (value *ₙ of_ℕ 1000 /ₙ most) in
    if most <=ₙ of_ℕ 0
    then of_ℕ 0
    else if p <ₙ of_ℕ 0
    then of_ℕ 0
    else if of_ℕ 1000 <ₙ p
    then of_ℕ 1000
    else p

-- The weighted mean of the four components.
unfoldable pub base_of : Number → Number → Number → Number → Number
base_of fill force commitment steadiness = floor (
    (fill *ₙ of_ℕ 40 +ₙ force *ₙ of_ℕ 25 +ₙ commitment *ₙ of_ℕ 20 +ₙ steadiness *ₙ of_ℕ 15)
    /ₙ of_ℕ 100)

unfoldable pub score_parts : Telemetry → Number → ScoreParts
score_parts telemetry tier_index =
    let hold_ms = floor telemetry.hold_ms in
    let ceilings = telemetry_ceilings tier_index (hold_ms /ₙ of_ℕ 1000) in
    let max_speed = round ceilings.max_speed in
    let max_tilt_milli = round (ceilings.max_tilt *ₙ of_ℕ 1000) in
    let fill = permille (floor telemetry.droplets_landed) ceilings.max_droplets in
    let force = permille (round telemetry.peak_velocity) max_speed in
    let commitment = permille hold_ms Sim.max_pour_ms in
    let steadiness =
      of_ℕ 1000 -ₙ permille (round (telemetry.tilt_energy *ₙ of_ℕ 1000)) max_tilt_milli in
    let base = base_of fill force commitment steadiness in
    let reach = tier_reach_base +ₙ tier_reach_step *ₙ clamp_tier_index tier_index in
    record {
      fill = fill;
      force = force;
      commitment = commitment;
      steadiness = steadiness;
      score = floor (base *ₙ reach /ₙ of_ℕ 100);
    }

unfoldable pub pour_score : Telemetry → Number → Number
pour_score telemetry tier_index = (score_parts telemetry tier_index).score

unfoldable pub rarity_score : Telemetry → Number → Number
rarity_score telemetry tier_index = pour_score telemetry tier_index

-- The bands of `classify`, for a score.
unfoldable pub band : Number → Rarity
band score =
    if thresholds.singular <=ₙ score
    then Rarity.singular
    else if thresholds.rare <=ₙ score
    then Rarity.rare
    else if thresholds.uncommon <=ₙ score
    then Rarity.uncommon
    else Rarity.common

unfoldable pub classify : Telemetry → Number → Rarity
classify telemetry tier_index = band (pour_score telemetry tier_index)
