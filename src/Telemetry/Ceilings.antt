-- ===== src/Telemetry/Ceilings.antt =====
-- `take` reads a claim as a number at or above zero, and no ceiling of `telemetryCeilings` is below.
use moltenpour.Prelude.{ℕ, ◌≡◌, arith, pos, negsuc}
use moltenpour.Number.{
  Number, nan, pos_inf, neg_inf, fin, of_ℕ, ratio, running, is_finite, ◌<ₙ◌, min, max, ◌/ₙ◌,
}
use moltenpour.Number.Order.{
  IsNonneg, IsPositive, IsNonnegFinite, IsNonneg_of_IsNonnegFinite, +-IsNonneg, *-IsNonneg,
  *-IsNonneg_left, square-IsNonneg, /-IsNonneg, sqrt-IsNonneg, ceil-IsNonneg, min-IsNonneg,
}
use moltenpour.Number.Whole.{of_ℕ-IsPositive, of_ℕ-IsNonnegFinite}
use moltenpour.Telemetry.Sim
use moltenpour.Telemetry.Tiers.{flow_lem, tier_of, flow_table-bounds}
use moltenpour.Telemetry.Defs.{Ceilings, telemetry_ceilings, ceilings_for, safe}

-- What a claim is read as is finite and not negative.
safe_pos : (n : ℕ) → safe (fin (pos n)) ≡ fin (pos n)
unfolding safe is_finite max ◌<ₙ◌ of_ℕ
safe_pos n = ground arith

safe_neg : (n : ℕ) → safe (fin (negsuc n)) ≡ of_ℕ 0
unfolding safe is_finite max ◌<ₙ◌ of_ℕ
safe_neg n = ground arith

pub safe-IsNonnegFinite : (x : Number) → IsNonnegFinite (safe x)
safe-IsNonnegFinite (fin (pos n)) = rw (safe_pos n) (IsNonnegFinite.finite n)
safe-IsNonnegFinite (fin (negsuc n)) = rw (safe_neg n) (of_ℕ-IsNonnegFinite 0)
safe-IsNonnegFinite nan = unfold safe is_finite in of_ℕ-IsNonnegFinite 0
safe-IsNonnegFinite pos_inf = unfold safe is_finite in of_ℕ-IsNonnegFinite 0
safe-IsNonnegFinite neg_inf = unfold safe is_finite in of_ℕ-IsNonnegFinite 0

pub safe_self : {x : Number} → IsNonnegFinite x → safe x ≡ x
safe_self (IsNonnegFinite.finite n) = safe_pos n

-- The literals of the formulas.
tolerance-IsPositive : IsPositive Sim.droplet_tolerance
unfolding Sim.droplet_tolerance running
tolerance-IsPositive = IsPositive.finite _

eleven_tenths-IsPositive : IsPositive (ratio 11 10)
unfolding running
eleven_tenths-IsPositive = IsPositive.finite _

twelve_tenths-IsNonneg : IsNonneg (ratio 12 10)
unfolding running
twelve_tenths-IsNonneg = IsNonneg.finite _

-- No ceiling is negative or NaN.
pub record AreNonneg (c : Ceilings) : Type 0 where
  pub droplets : IsNonneg c.max_droplets
  pub speed : IsNonneg c.max_speed
  pub tilt : IsNonneg c.max_tilt

pub ceilings_for-AreNonneg :
    {flow hold_s : Number}
    → IsPositive flow
    → IsNonneg hold_s
    → AreNonneg (ceilings_for flow hold_s)
unfolding ceilings_for Sim.spawn_vy_max Sim.gravity Sim.spawn_vx_max Sim.max_tilt_rate
ceilings_for-AreNonneg f h =
    let six : IsPositive (of_ℕ 6) = of_ℕ-IsPositive 6 (omega arith) in
    let gravity : IsPositive (of_ℕ 1400) = of_ℕ-IsPositive 1400 (omega arith) in
    let whole : (n : ℕ) → IsNonneg (of_ℕ n) =
      λ n. IsNonneg_of_IsNonnegFinite (of_ℕ-IsNonnegFinite n) in
    let fall =
      +-IsNonneg (whole 120) (*-IsNonneg_left gravity (min-IsNonneg h twelve_tenths-IsNonneg)) in
    record {
      droplets = ceil-IsNonneg (*-IsNonneg (*-IsNonneg_left f h) tolerance-IsPositive);
      speed =
          *-IsNonneg
            (sqrt-IsNonneg (+-IsNonneg (square-IsNonneg fall) (square-IsNonneg (whole 45))))
            eleven_tenths-IsPositive;
      tilt = *-IsNonneg_left six h;
    }

pub telemetry_ceilings-AreNonneg :
    (tier_index : Number) {hold_s : Number}
    → IsNonneg hold_s
    → AreNonneg (telemetry_ceilings tier_index hold_s)
unfolding telemetry_ceilings
telemetry_ceilings-AreNonneg tier_index h =
    rw (flow_lem tier_index)
      (ceilings_for-AreNonneg (of_ℕ-IsPositive _ (flow_table-bounds (tier_of tier_index)).0) h)

-- The ceilings that hold for a hold of so many milliseconds.
abbrev pub ceilings_at : Number → Number → Ceilings
ceilings_at tier_index hold_ms = telemetry_ceilings tier_index (hold_ms /ₙ of_ℕ 1000)

pub ceilings_at-AreNonneg :
    (tier_index : Number) {hold_ms : Number}
    → IsNonneg hold_ms
    → AreNonneg (ceilings_at tier_index hold_ms)
ceilings_at-AreNonneg tier_index h =
    telemetry_ceilings-AreNonneg tier_index (/-IsNonneg h (of_ℕ-IsPositive 1000 (omega arith)))

-- The longest hold that a wall clock allows.
abbrev pub hold_cap : Number → Number
hold_cap wall_clock_ms = min wall_clock_ms Sim.max_pour_ms

pub hold_cap-IsNonneg : {wall : Number} → IsNonneg wall → IsNonneg (hold_cap wall)
unfolding Sim.max_pour_ms
hold_cap-IsNonneg h = min-IsNonneg h (IsNonneg_of_IsNonnegFinite (of_ℕ-IsNonnegFinite 15000))
