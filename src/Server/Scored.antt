-- ===== src/Server/Scored.antt =====
-- The ceilings of a hold that the clamp lets pass, and the clamped pour: doubles that both sides round alike,
-- save where the pour itself is next below a half.
use native.Mathlib.Nat.{mul-le-mul_right}
use moltenpour.Prelude.{ℕ, zero, suc, ◌*◌, ◌^◌, ◌≤◌, ◌≡◌, ◌≢◌, refl, arith, ℤ, pos, ap}
use moltenpour.Number.{Number, fin, of_ℕ, ratio, unit, running, ◌*ₙ◌, ◌/ₙ◌}
use moltenpour.Number.Order.{◌≤ₙ◌, IsNonneg}
use moltenpour.Number.UpTo.{
  UpTo, WholeUpTo, UpTo-mono, of_ℕ-UpTo, +-UpTo, *-UpTo, /-UpTo, sqrt-UpTo, min-UpTo,
  floor-WholeUpTo, UpTo-of_WholeUpTo,
}
use moltenpour.Number.Held.{IsDouble, *-IsDouble, min-IsDouble}
use moltenpour.Number.AtLeast.{AtLeast, of_ℕ-AtLeast, +-AtLeast, *-AtLeast, /-AtLeast, sqrt-AtLeast}
use moltenpour.Telemetry.{Telemetry, telemetry_ceilings, ceilings_for, clamp_telemetry, safe, take}
use moltenpour.Telemetry.Sim
use moltenpour.Telemetry.Bounds.{eleven_tenths-UpTo, twelve_tenths-UpTo, IsClamped-IsSmall}
use moltenpour.Telemetry.Clamp.{clamp_telemetry-IsClamped}
use moltenpour.Server.Floats.{float}
use moltenpour.Server.Halves.{below_half}
use moltenpour.Server.Seeds.{RoundsAlike, IsScorable}

UpTo-le_half : {k : ℕ} {x : Number} → k ≤ 2 ^ 51 → UpTo k x → x ≤ₙ of_ℕ (2 ^ 51)
unfolding of_ℕ unit
UpTo-le_half {k} small (UpTo.up_to n h) = omega (arith, mul-le-mul_right (2 ^ 1074) small)

-- What a number from zero on is, in units.
abbrev magnitude : Number → ℕ
magnitude (fin (pos n)) = n
magnitude x = 0

AtLeast-other : {j : ℕ} {x : Number} → 512 ≤ j → AtLeast j x → x ≢ fin (pos below_half)
AtLeast-other {j} large (AtLeast.at_least n h) e =
    omega (arith, h, mul-le-mul_right (2 ^ 1064) large, ap (λ x. magnitude x) e)

far-RoundsAlike :
    {j k : ℕ} {x : Number}
    → 512 ≤ j
    → k ≤ 2 ^ 51
    → IsDouble x
    → AtLeast j x
    → UpTo k x
    → RoundsAlike x
far-RoundsAlike large small double least most = record {
  double = double;
  small = UpTo-le_half small most;
  other = AtLeast-other large least;
}

eleven_tenths-AtLeast : AtLeast 1024 (ratio 11 10)
unfolding running
eleven_tenths-AtLeast = AtLeast.at_least _ (omega arith)

-- The speed is that of a fall from 120 pixels a second on.
speed-RoundsAlike :
    (flow : Number) {hold_s : Number}
    → UpTo 15_001 hold_s
    → RoundsAlike (ceilings_for flow hold_s).max_speed
unfolding ceilings_for Sim.spawn_vy_max Sim.gravity Sim.spawn_vx_max
speed-RoundsAlike flow h =
    let w : (n : ℕ) → UpTo n (of_ℕ n) = λ n. of_ℕ-UpTo n in
    let gained = *-UpTo {j = 1400} {k = 2} (omega arith) (w 1400) (min-UpTo h twelve_tenths-UpTo) in
    let fall = +-UpTo {k = 2801} (omega arith) (w 120) gained in
    let least =
      +-AtLeast {i = 122880} {j = 120} {k = 2801} (omega arith) (of_ℕ-AtLeast 120) (w 120) gained in
    let square = *-UpTo {j = 2922} {k = 2922} (omega arith) fall fall in
    let least_square =
      *-AtLeast {t = 14745600} {k = 2922} {l = 2922} (omega arith) (omega arith) least least fall
        fall in
    let sideways = *-UpTo (omega arith) (w 45) (w 45) in
    let total = UpTo-mono {k = 2923 * 2923} (omega arith) (+-UpTo (omega arith) square sideways) in
    let least_total = +-AtLeast (omega arith) least_square square sideways in
    let root = sqrt-UpTo {k = 2923} (omega arith) (omega arith) total in
    let least_root =
      sqrt-AtLeast {t = 122880} {k = 2923} (omega arith) (omega arith) least_total total in
    far-RoundsAlike (omega arith) (omega arith)
      (*-IsDouble {j = 2925} {k = 2} (omega arith) root eleven_tenths-UpTo)
      (*-AtLeast {t = 122880} {k = 2925} {l = 2} (omega arith) (omega arith) least_root
        eleven_tenths-AtLeast root eleven_tenths-UpTo)
      (*-UpTo {j = 2925} {k = 2} (omega arith) root eleven_tenths-UpTo)

no_tilt : of_ℕ 6 *ₙ (of_ℕ 0 /ₙ of_ℕ 1000) *ₙ of_ℕ 1000 ≡ of_ℕ 0
unfolding running
no_tilt = refl

none-RoundsAlike : RoundsAlike (of_ℕ 0)
unfolding of_ℕ unit
none-RoundsAlike = record {
  double = IsDouble.held 0 1074 (omega arith);
  small = omega arith;
  other = λ e. omega (arith, ap (λ x. magnitude x) e);
}

tilt-RoundsAlike :
    (flow : Number) {hold : Number}
    → WholeUpTo 15_000 hold
    → RoundsAlike ((ceilings_for flow (hold /ₙ of_ℕ 1000)).max_tilt *ₙ of_ℕ 1000)
unfolding ceilings_for Sim.max_tilt_rate
tilt-RoundsAlike flow (WholeUpTo.whole zero le) = rw no_tilt none-RoundsAlike
tilt-RoundsAlike flow (WholeUpTo.whole (suc n) le) =
    let h = UpTo-mono le (of_ℕ-UpTo (suc n)) in
    let w : (n : ℕ) → UpTo n (of_ℕ n) = λ n. of_ℕ-UpTo n in
    let hold_s = /-UpTo 1000 (omega arith) (omega arith) h in
    let least =
      /-AtLeast {t = 1} {k = 15_000} 1000 (omega arith) (omega arith) (omega arith)
        (of_ℕ-AtLeast (suc n)) h in
    let tilt = *-UpTo {j = 6} {k = 15001} (omega arith) (w 6) hold_s in
    let least_tilt =
      *-AtLeast {t = 6} {k = 6} {l = 15001} (omega arith) (omega arith) (of_ℕ-AtLeast 6) least (w 6)
        hold_s in
    far-RoundsAlike (omega arith) (omega arith)
      (*-IsDouble {j = 90_007} {k = 1000} (omega arith) tilt (w 1000))
      (*-AtLeast {t = 6000} {k = 90_007} {l = 1000} (omega arith) (omega arith) least_tilt
        (of_ℕ-AtLeast 1000) tilt (w 1000))
      (*-UpTo {j = 90_007} {k = 1000} (omega arith) tilt (w 1000))

-- What is scored and hashed of a clamped pour is rounded alike, but for the pour itself.
pub clamped-IsScorable :
    (raw : Telemetry) (tier_index : ℤ) (wall : Number)
    → let t = (clamp_telemetry raw (float tier_index) wall).telemetry in
      IsNonneg wall
      → IsDouble (safe raw.peak_velocity)
      → t.peak_velocity ≢ fin (pos below_half)
      → t.tilt_energy *ₙ of_ℕ 1000 ≢ fin (pos below_half)
      → IsScorable t tier_index
clamped-IsScorable raw tier_index wall w double peak tilt =
    let t = (clamp_telemetry raw (float tier_index) wall).telemetry in
    let small = IsClamped-IsSmall w (clamp_telemetry-IsClamped raw (float tier_index) wall w) in
    let milli = *-UpTo {j = 2_000_000} {k = 1000} (omega arith) small.tilt (of_ℕ-UpTo 1000) in
    let hold = floor-WholeUpTo small.hold in
    record {
      hashable = record {
        peak = record {
          double =
              unfold clamp_telemetry take telemetry_ceilings in
              min-IsDouble double
                (speed-RoundsAlike _ (/-UpTo 1000 (omega arith) (omega arith) small.hold)).double;
          small = UpTo-le_half (omega arith) small.velocity;
          other = peak;
        };
        tilt = record {
          double = *-IsDouble {j = 2_000_000} {k = 1000} (omega arith) small.tilt (of_ℕ-UpTo 1000);
          small = UpTo-le_half (omega arith) milli;
          other = tilt;
        };
      };
      speed =
          unfold telemetry_ceilings in
          speed-RoundsAlike _ (/-UpTo 1000 (omega arith) (omega arith) (UpTo-of_WholeUpTo hold));
      most_tilt = unfold telemetry_ceilings in tilt-RoundsAlike _ hold;
    }
