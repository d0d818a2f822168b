-- ===== src/Telemetry/Defs.antt =====
-- app/sigil/telemetry.ts: the bounds on what a client may claim about a pour.
use moltenpour.Prelude.{List, [], ◌∷◌, ◌++◌, map, Option, none, some, if◌then◌else◌, length}
use moltenpour.Number.{
  Number, nan, of_ℕ, ratio, is_finite, ◌<ₙ◌, ◌+ₙ◌, ◌-ₙ◌, ◌*ₙ◌, ◌/ₙ◌, min, max, floor, ceil, sqrt,
  element,
}
use moltenpour.Telemetry.Sim

pub record Telemetry : Type 0 where
  pub droplets_landed : Number
  pub peak_velocity : Number
  pub tilt_energy : Number
  pub hold_ms : Number

-- `keyof Telemetry`.
pub data Field : Type 0 where
  droplets_landed peak_velocity tilt_energy hold_ms : Field

pub record TierBounds : Type 0 where
  pub flow : Number

unfoldable pub tier_bounds : List TierBounds
tier_bounds = map (λ f. record { flow = of_ℕ f }) (10 ∷ 16 ∷ 20 ∷ 24 ∷ 28 ∷ 34 ∷ [])

-- `TIER_BOUNDS.length`.
unfoldable pub tier_count : Number
tier_count = of_ℕ (length tier_bounds)

unfoldable pub clamp_tier_index : Number → Number
clamp_tier_index tier_index =
    let i = floor tier_index in
    if is_finite tier_index
    then (if i <ₙ of_ℕ 0 then of_ℕ 0 else if i <ₙ tier_count then i else tier_count -ₙ of_ℕ 1)
    else of_ℕ 0

-- The flow of a looked-up tier. A missing one would throw; NaN stands for that.
unfoldable pub flow_of : Option TierBounds → Number
flow_of none = nan
flow_of (some tier) = tier.flow

pub record Ceilings : Type 0 where
  pub max_droplets : Number
  pub max_speed : Number
  pub max_tilt : Number

-- `telemetryCeilings`, for the flow of the tier.
unfoldable pub ceilings_for : Number → Number → Ceilings
ceilings_for flow hold_s =
    let max_fall = Sim.spawn_vy_max +ₙ Sim.gravity *ₙ min hold_s (ratio 12 10) in
    record {
      max_droplets = ceil (flow *ₙ hold_s *ₙ Sim.droplet_tolerance);
      max_speed =
          sqrt (max_fall *ₙ max_fall +ₙ Sim.spawn_vx_max *ₙ Sim.spawn_vx_max) *ₙ ratio 11 10;
      max_tilt = Sim.max_tilt_rate *ₙ hold_s;
    }

unfoldable pub telemetry_ceilings : Number → Number → Ceilings
telemetry_ceilings tier_index hold_s =
    ceilings_for (flow_of (element tier_bounds (clamp_tier_index tier_index))) hold_s

pub record ClampResult : Type 0 where
  pub telemetry : Telemetry
  pub violations : List Field

-- `safe` of the closure `take`: what a claim is read as.
unfoldable pub safe : Number → Number
safe value = if is_finite value then max (of_ℕ 0) value else of_ℕ 0

-- The closure `take`: the value, and the violations so far.
unfoldable pub take : Field → Number → Number → List Field → Number × List Field
take key value most violations =
    (min (safe value) most, if most <ₙ safe value then violations ++ key ∷ [] else violations)

unfoldable pub clamp_telemetry : Telemetry → Number → Number → ClampResult
clamp_telemetry raw tier_index wall_clock_ms =
    let (hold, v1) = take hold_ms raw.hold_ms (min wall_clock_ms Sim.max_pour_ms) [] in
    let ceilings = telemetry_ceilings tier_index (hold /ₙ of_ℕ 1000) in
    let (droplets, v2) = take droplets_landed raw.droplets_landed ceilings.max_droplets v1 in
    let (velocity, v3) = take peak_velocity raw.peak_velocity ceilings.max_speed v2 in
    let (tilt, v4) = take tilt_energy raw.tilt_energy ceilings.max_tilt v3 in
    record {
      telemetry = record {
        droplets_landed = droplets;
        peak_velocity = velocity;
        tilt_energy = tilt;
        hold_ms = hold;
      };
      violations = v4;
    }
