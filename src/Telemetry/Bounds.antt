-- ===== src/Telemetry/Bounds.antt =====
-- How large the ceilings can be: no overflow, and far below 2 ^ 53.
use moltenpour.Prelude.{pos, ℕ, ◌≡◌, refl, arith}
use moltenpour.Number.{Number, of_ℕ, ratio, running, unit, min, fin, pos_inf, ◌<ₙ◌}
use moltenpour.Number.UpTo.{
  UpTo, WholeUpTo, UpTo-mono, of_ℕ-UpTo, +-UpTo, *-UpTo, /-UpTo, ceil-WholeUpTo, sqrt-UpTo,
  min-UpTo, UpTo-of_le, UpTo-of_WholeUpTo,
}
use moltenpour.Number.Whole.{unit-pos}
use moltenpour.Number.Order.{IsNonneg, IsNonnegFinite, ◌≤ₙ◌}
use moltenpour.Telemetry.Sim
use moltenpour.Telemetry.Tiers.{flow_lem, tier_of, flow_table-bounds}
use moltenpour.Telemetry.Defs.{Telemetry, Ceilings, telemetry_ceilings, ceilings_for}
use moltenpour.Telemetry.Ceilings.{ceilings_at, hold_cap}
use moltenpour.Telemetry.Clamp.{IsClamped}

tolerance-UpTo : UpTo 2 Sim.droplet_tolerance
unfolding Sim.droplet_tolerance running
tolerance-UpTo = UpTo.up_to _ (unfold unit in omega arith)

pub eleven_tenths-UpTo : UpTo 2 (ratio 11 10)
unfolding running
eleven_tenths-UpTo = UpTo.up_to _ (omega arith)

pub twelve_tenths-UpTo : UpTo 2 (ratio 12 10)
unfolding running
twelve_tenths-UpTo = UpTo.up_to _ (omega arith)

pub record AreUpTo (c : Ceilings) : Type 0 where
  pub droplets : WholeUpTo 1_020_071 c.max_droplets
  pub speed : UpTo 5851 c.max_speed
  pub tilt : UpTo 90_007 c.max_tilt

ceilings_for-AreUpTo :
    {flow hold_s : Number} → UpTo 34 flow → UpTo 15_001 hold_s → AreUpTo (ceilings_for flow hold_s)
unfolding ceilings_for Sim.spawn_vy_max Sim.gravity Sim.spawn_vx_max Sim.max_tilt_rate
ceilings_for-AreUpTo f h =
    let w : (n : ℕ) → UpTo n (of_ℕ n) = λ n. of_ℕ-UpTo n in
    let fall =
      +-UpTo {k = 2801} (omega arith) (w 120)
        (*-UpTo {j = 1400} {k = 2} (omega arith) (w 1400) (min-UpTo h twelve_tenths-UpTo)) in
    let total =
      +-UpTo (omega arith) (*-UpTo {j = 2922} {k = 2922} (omega arith) fall fall)
        (*-UpTo (omega arith) (w 45) (w 45)) in
    record {
      droplets = ceil-WholeUpTo (
          *-UpTo {j = 510035} {k = 2} (omega arith) (*-UpTo {j = 34} {k = 15001} (omega arith) f h)
            tolerance-UpTo);
      speed =
          *-UpTo {j = 2925} {k = 2} (omega arith)
            (sqrt-UpTo {k = 2923} (omega arith) (omega arith) (UpTo-mono (omega arith) total))
            eleven_tenths-UpTo;
      tilt = *-UpTo {j = 6} {k = 15001} (omega arith) (w 6) h;
    }

pub ceilings_at-AreUpTo :
    (tier_index : Number) {hold_ms : Number}
    → UpTo 15_000 hold_ms
    → AreUpTo (ceilings_at tier_index hold_ms)
unfolding telemetry_ceilings
ceilings_at-AreUpTo tier_index h = rw (flow_lem tier_index) (
    ceilings_for-AreUpTo (UpTo-mono (flow_table-bounds (tier_of tier_index)).1 (of_ℕ-UpTo _))
      (/-UpTo 1000 (omega arith) (omega arith) h))

-- Telemetry small enough to be scored in exact integers.
pub record IsSmall (t : Telemetry) : Type 0 where
  pub hold : UpTo 15_000 t.hold_ms
  pub droplets : UpTo 2_000_000 t.droplets_landed
  pub velocity : UpTo 2_000_000 t.peak_velocity
  pub tilt : UpTo 2_000_000 t.tilt_energy

cap_infinite : min pos_inf (of_ℕ 15_000) ≡ of_ℕ 15_000
unfolding min ◌<ₙ◌ of_ℕ
cap_infinite = refl

hold_cap-UpTo :
    {wall : Number}
    → IsNonneg wall
    → {h : Number} → IsNonnegFinite h
    → h ≤ₙ hold_cap wall
    → UpTo 15_000 h
unfolding Sim.max_pour_ms
hold_cap-UpTo IsNonneg.infinite f le = UpTo-of_le f (rw cap_infinite at le) (of_ℕ-UpTo 15_000)
hold_cap-UpTo (IsNonneg.finite n) f le =
    let bounded : UpTo n (fin (pos n)) = UpTo.up_to n (grind (arith, unit-pos)) in
    UpTo-of_le f le (min-UpTo bounded (of_ℕ-UpTo 15_000))

pub IsClamped-IsSmall :
    {tier_index wall : Number} {t : Telemetry}
    → IsNonneg wall
    → IsClamped tier_index wall t
    → IsSmall t
IsClamped-IsSmall {tier_index} {wall} {t} w c =
    let hold = hold_cap-UpTo w c.hold c.hold_le in
    let b = ceilings_at-AreUpTo tier_index hold in
    record {
      hold = hold;
      droplets =
          UpTo-mono (omega arith)
            (UpTo-of_le c.droplets c.droplets_le (UpTo-of_WholeUpTo b.droplets));
      velocity = UpTo-mono (omega arith) (UpTo-of_le c.velocity c.velocity_le b.speed);
      tilt = UpTo-mono (omega arith) (UpTo-of_le c.tilt c.tilt_le b.tilt);
    }
