-- ===== src/Telemetry/Clamp.antt =====
-- `clampTelemetry`: what it returns is within its own ceilings, and clamping that again changes
-- nothing.
use moltenpour.Prelude.{
  subst, List, [], ◌∷◌, ◌++◌, ◌≡◌, ◌≢◌, refl, ap, ◌∙◌, Bool-cases, inl, inr, ◌↔◌,
}
use moltenpour.Number.{Number, ◌<ₙ◌, min}
use moltenpour.Number.Order.{
  ◌≤ₙ◌, IsNonneg, IsNonnegFinite, IsNonneg_of_IsNonnegFinite, min-IsNonnegFinite, min-le_right,
  min-eq_left, min-ne_left, le→not_lt,
}
use moltenpour.Telemetry.Defs.{Telemetry, Field, safe, take, clamp_telemetry}
use moltenpour.Telemetry.Ceilings.{
  safe-IsNonnegFinite, safe_self, ceilings_at, ceilings_at-AreNonneg, hold_cap, hold_cap-IsNonneg,
}

-- Telemetry that a tier and a wall clock allow: finite, not negative, and under the ceilings of its
-- own hold.
pub record IsClamped (tier_index wall_clock_ms : Number) (t : Telemetry) : Type 0 where
  pub hold : IsNonnegFinite t.hold_ms
  pub droplets : IsNonnegFinite t.droplets_landed
  pub velocity : IsNonnegFinite t.peak_velocity
  pub tilt : IsNonnegFinite t.tilt_energy
  pub hold_le : t.hold_ms ≤ₙ hold_cap wall_clock_ms
  pub droplets_le : t.droplets_landed ≤ₙ (ceilings_at tier_index t.hold_ms).max_droplets
  pub velocity_le : t.peak_velocity ≤ₙ (ceilings_at tier_index t.hold_ms).max_speed
  pub tilt_le : t.tilt_energy ≤ₙ (ceilings_at tier_index t.hold_ms).max_tilt

-- Whatever the client claims, the clamped telemetry is finite, not negative, and within the
-- ceilings of the tier for the clamped hold, which is at most the wall clock and the hard stop. The
-- wall clock is a number at or above zero.
pub clamp_telemetry-IsClamped :
    (raw : Telemetry) (tier_index wall : Number)
    → IsNonneg wall
    → IsClamped tier_index wall (clamp_telemetry raw tier_index wall).telemetry
unfolding clamp_telemetry take
clamp_telemetry-IsClamped raw tier_index wall w =
    let cap = hold_cap-IsNonneg w in
    let hold = min-IsNonnegFinite (safe-IsNonnegFinite raw.hold_ms) cap in
    let c = ceilings_at-AreNonneg tier_index (IsNonneg_of_IsNonnegFinite hold) in
    record {
      hold = hold;
      droplets = min-IsNonnegFinite (safe-IsNonnegFinite raw.droplets_landed) c.droplets;
      velocity = min-IsNonnegFinite (safe-IsNonnegFinite raw.peak_velocity) c.speed;
      tilt = min-IsNonnegFinite (safe-IsNonnegFinite raw.tilt_energy) c.tilt;
      hold_le = min-le_right (safe-IsNonnegFinite raw.hold_ms) cap;
      droplets_le = min-le_right (safe-IsNonnegFinite raw.droplets_landed) c.droplets;
      velocity_le = min-le_right (safe-IsNonnegFinite raw.peak_velocity) c.speed;
      tilt_le = min-le_right (safe-IsNonnegFinite raw.tilt_energy) c.tilt;
    }

take_within :
    (key : Field) {x most : Number} (vs : List Field)
    → IsNonnegFinite x
    → IsNonneg most
    → x ≤ₙ most
    → take key x most vs ≡ (x, vs)
unfolding take
take_within key vs h k le =
    let same = le→not_lt h k le in rw (safe_self h, same) (λ i. (min-eq_left h k same i, vs))

clamp_of_IsClamped :
    (t : Telemetry) (tier_index wall : Number)
    → IsNonneg wall
    → IsClamped tier_index wall t
    → clamp_telemetry t tier_index wall ≡ record { telemetry = t; violations = [] }
unfolding clamp_telemetry
clamp_of_IsClamped t tier_index wall w c =
    let ceilings = ceilings_at-AreNonneg tier_index (IsNonneg_of_IsNonnegFinite c.hold) in
    rw (
      take_within Field.hold_ms [] c.hold (hold_cap-IsNonneg w) c.hold_le,
      take_within Field.droplets_landed [] c.droplets ceilings.droplets c.droplets_le,
      take_within Field.peak_velocity [] c.velocity ceilings.speed c.velocity_le,
      take_within Field.tilt_energy [] c.tilt ceilings.tilt c.tilt_le,
    )

-- Telemetry comes back unchanged and with no violation exactly when it is finite, not negative and
-- within the ceilings. So the server's clamp leaves alone what the client's clamp has returned. The
-- wall clock is a number at or above zero.
pub clamp_telemetry-fixed_iff :
    (t : Telemetry) (tier_index wall : Number)
    → IsNonneg wall
    → (clamp_telemetry t tier_index wall ≡ record { telemetry = t; violations = [] })
      ↔ IsClamped tier_index wall t
clamp_telemetry-fixed_iff t tier_index wall w = (
  λ e.
      subst (λ r. IsClamped tier_index wall r.telemetry) e
        (clamp_telemetry-IsClamped t tier_index wall w),
  clamp_of_IsClamped t tier_index wall w,
)

-- Each claim as the clamp reads it: a number at or above zero, and zero for what is not finite.
abbrev pub read : Telemetry → Telemetry
read raw = record {
  droplets_landed = safe raw.droplets_landed;
  peak_velocity = safe raw.peak_velocity;
  tilt_energy = safe raw.tilt_energy;
  hold_ms = safe raw.hold_ms;
}

-- What `take` does to the violations.
data TakeStep (key : Field) (x most : Number) (vs : List Field) : Number × List Field → Type 0 where
  kept : min (safe x) most ≡ safe x → TakeStep key x most vs (safe x, vs)
  lowered : (y : Number) → y ≢ safe x → TakeStep key x most vs (y, vs ++ key ∷ [])

take_step :
    (key : Field) (x : Number) {most : Number} (vs : List Field)
    → IsNonneg most
    → TakeStep key x most vs (take key x most vs)
unfolding take
take_step key x {most} vs m = elim (Bool-cases (most <ₙ safe x)) [
  | inl over ↦
      rw over (TakeStep.lowered (min (safe x) most) (min-ne_left (safe-IsNonnegFinite x) m over))
  | inr under ↦
      let same = min-eq_left (safe-IsNonnegFinite x) m under in
      rw (under, same) (TakeStep.kept same)
]

append-ne-nil : (vs : List Field) (key : Field) → (vs ++ key ∷ []) ≢ []
append-ne-nil [] key = λ e. cc
append-ne-nil (v ∷ vs) key = λ e. cc

step_clean :
    {key : Field} {x most : Number} {vs : List Field} {r : Number × List Field}
    → TakeStep key x most vs r
    → r.1 ≡ []
    → (r.0 ≡ safe x) × (vs ≡ [])
step_clean (TakeStep.kept same) e = (refl, e)
step_clean {key} {vs} (TakeStep.lowered y ne) e = absurd (append-ne-nil vs key e)

step_same :
    {key : Field} {x most : Number} {vs : List Field} {r : Number × List Field}
    → TakeStep key x most vs r
    → r.0 ≡ safe x
    → r.1 ≡ vs
step_same (TakeStep.kept same) e = refl
step_same (TakeStep.lowered y ne) e = absurd (ne e)

-- No violation is reported exactly when every claim is kept as it is read, so a report is made for
-- every overclaim and for nothing else. The wall clock is a number at or above zero.
pub no_violations_iff :
    (raw : Telemetry) (tier_index wall : Number)
    → IsNonneg wall
    → ((clamp_telemetry raw tier_index wall).violations ≡ [])
      ↔ ((clamp_telemetry raw tier_index wall).telemetry ≡ read raw)
unfolding clamp_telemetry
no_violations_iff raw tier_index wall w =
    let cap = hold_cap-IsNonneg w in
    let s1 = take_step Field.hold_ms raw.hold_ms [] cap in
    let hold : IsNonnegFinite (take Field.hold_ms raw.hold_ms (hold_cap wall) []).0 =
      unfold take in min-IsNonnegFinite (safe-IsNonnegFinite raw.hold_ms) cap in
    let c = ceilings_at-AreNonneg tier_index (IsNonneg_of_IsNonnegFinite hold) in
    let s2 = take_step Field.droplets_landed raw.droplets_landed _ c.droplets in
    let s3 = take_step Field.peak_velocity raw.peak_velocity _ c.speed in
    let s4 = take_step Field.tilt_energy raw.tilt_energy _ c.tilt in
    (
      λ e.
          let (tilt, e3) = step_clean s4 e in
          let (velocity, e2) = step_clean s3 e3 in
          let (droplets, e1) = step_clean s2 e2 in
          let (held, _) = step_clean s1 e1 in
          λ i. record {
            droplets_landed = droplets i;
            peak_velocity = velocity i;
            tilt_energy = tilt i;
            hold_ms = held i;
          },
      λ e.
          step_same s4 (ap (λ t. t.tilt_energy) e)
          ∙ step_same s3 (ap (λ t. t.peak_velocity) e)
          ∙ step_same s2 (ap (λ t. t.droplets_landed) e)
          ∙ step_same s1 (ap (λ t. t.hold_ms) e),
    )
