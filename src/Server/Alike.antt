-- ===== src/Server/Alike.antt =====
-- The clamp of api/sigil/sigil.go is that of app/sigil/telemetry.ts.
use moltenpour.Prelude.{
  ℕ, zero, suc, ◌*◌, ◌<◌, ◌≡◌, refl, ap, arith, List, [], ◌∷◌, ◌++◌, map, true, Bool-cases, inl,
  inr, if◌then◌else◌, ltb, ℤ, pos, negsuc, neg_ℕ, get_elem?, eq_of_parts,
}
use moltenpour.Number.{
  Number, nan, pos_inf, neg_inf, fin, unit, of_ℕ, ratio, running, is_finite, neg, min, max, ◌<ₙ◌,
  ◌*ₙ◌, ◌/ₙ◌,
}
use moltenpour.Number.Whole.{unit-pos, whole_div}
use moltenpour.Text.{Text, codes}
use moltenpour.Telemetry.{
  Field, Telemetry, ceilings_for, telemetry_ceilings, safe, take, clamp_telemetry,
}
use moltenpour.Telemetry.Sim
use moltenpour.Telemetry.Tiers.{tier_of, tier_of-lt, flow_table, flow_lem}
use moltenpour.Server.Floats.{float, is_nan, is_inf, math_min}
use moltenpour.Server.Sigil as Go

-- The key of a field in JSON.
abbrev pub key_of : Field → Text
key_of Field.droplets_landed = codes "dropletsLanded"
key_of Field.peak_velocity = codes "peakVelocity"
key_of Field.tilt_energy = codes "tiltEnergy"
key_of Field.hold_ms = codes "holdMs"

safe_of_lem : (v : Number) → Go.safe_of v ≡ safe v
unfolding Go.safe_of Go.finite_or_zero safe is_nan is_inf is_finite of_ℕ max ◌<ₙ◌
safe_of_lem nan = ground arith
safe_of_lem pos_inf = ground arith
safe_of_lem neg_inf = ground arith
safe_of_lem (fin (pos zero)) = ground arith
safe_of_lem (fin (pos (suc n))) = ground arith
safe_of_lem (fin (negsuc n)) = ground arith

safe_finite : (v : Number) → is_finite (safe v) ≡ true
unfolding safe is_finite of_ℕ max ◌<ₙ◌
safe_finite nan = refl
safe_finite pos_inf = refl
safe_finite neg_inf = refl
safe_finite (fin z) = ground arith

-- The smaller of two, whichever is tested first.
either_smaller {ℓ} :
    {A : Type ℓ} (p q : ℕ) (x y : A)
    → (p ≡ q → x ≡ y)
    → (if ltb p q then x else y) ≡ (if ltb q p then y else x)
either_smaller p q x y h = ground (arith, h)

smaller :
    (a b : ℤ)
    → (if fin a <ₙ fin b then fin a else fin b) ≡ (if fin b <ₙ fin a then fin b else fin a)
unfolding ◌<ₙ◌
smaller a b = either_smaller _ _ (fin a) (fin b) (λ e. ap fin (eq_of_parts a b e))

math_min-left : (x y : Number) → is_finite x ≡ true → math_min x y ≡ min x y
unfolding math_min min is_finite
math_min-left (fin a) (fin b) h = smaller a b
math_min-left (fin a) nan h = refl
math_min-left (fin a) pos_inf h = unfold ◌<ₙ◌ in refl
math_min-left (fin a) neg_inf h = unfold ◌<ₙ◌ in refl
math_min-left nan y h = cc
math_min-left pos_inf y h = cc
math_min-left neg_inf y h = cc

math_min-right : (x y : Number) → is_finite y ≡ true → math_min x y ≡ min x y
unfolding math_min min is_finite
math_min-right (fin a) (fin b) h = smaller a b
math_min-right nan (fin b) h = refl
math_min-right pos_inf (fin b) h = unfold ◌<ₙ◌ in refl
math_min-right neg_inf (fin b) h = unfold ◌<ₙ◌ in refl
math_min-right x nan h = cc
math_min-right x pos_inf h = cc
math_min-right x neg_inf h = cc

-- An int is read as the tier that its number is read as.
pub clamp_tier_index-tier_of : (z : ℤ) → Go.clamp_tier_index z ≡ tier_of (float z)
unfolding Go.clamp_tier_index float of_ℕ neg
clamp_tier_index-tier_of (pos n) = rw (whole_div n) (ground arith)
clamp_tier_index-tier_of (negsuc n) = below (suc n * unit) (grind (arith, unit-pos))
  where
    below : (m : ℕ) → 0 < m → 0 ≡ tier_of (fin (neg_ℕ m))
    below zero h = absurd (omega arith)
    below (suc m) h = refl

flow_at_lem : (i : ℕ) → i < 6 → Go.flow_at (get_elem? Go.tier_flow i) ≡ of_ℕ (flow_table i)
unfolding Go.flow_at Go.tier_flow
flow_at_lem zero h = refl
flow_at_lem (suc zero) h = refl
flow_at_lem (suc (suc zero)) h = refl
flow_at_lem (suc (suc (suc zero))) h = refl
flow_at_lem (suc (suc (suc (suc zero)))) h = refl
flow_at_lem (suc (suc (suc (suc (suc zero))))) h = refl
flow_at_lem (suc (suc (suc (suc (suc (suc i)))))) h = absurd (omega arith)

square_vx : Sim.spawn_vx_max *ₙ Sim.spawn_vx_max ≡ of_ℕ 2025
unfolding Sim.spawn_vx_max running
square_vx = refl

fall_cap : is_finite (ratio 12 10) ≡ true
unfolding running
fall_cap = refl

-- The ceilings of the two sides.
abbrev pub SameCeilings : ℤ → Number → Type 0
SameCeilings z hold_s =
    let go = Go.telemetry_ceilings z hold_s in
    let ts = telemetry_ceilings (float z) hold_s in
    (go.max_droplets ≡ ts.max_droplets)
    × (go.max_speed ≡ ts.max_speed)
    × (go.max_tilt ≡ ts.max_tilt)

pub telemetry_ceilings-SameCeilings : (z : ℤ) (hold_s : Number) → SameCeilings z hold_s
unfolding Go.telemetry_ceilings telemetry_ceilings ceilings_for Sim.spawn_vy_max Sim.gravity
    Sim.droplet_tolerance Sim.max_tilt_rate
telemetry_ceilings-SameCeilings z hold_s =
    rw
      (
        flow_lem (float z),
        clamp_tier_index-tier_of z,
        flow_at_lem (tier_of (float z)) (tier_of-lt (float z)),
        math_min-right hold_s (ratio 12 10) fall_cap,
        square_vx,
      )
      (refl, refl, refl)

map-snoc {ℓ κ} :
    {A : Type ℓ} {B : Type κ} (f : A → B) (xs : List A) (x : A)
    → map f xs ++ f x ∷ [] ≡ map f (xs ++ x ∷ [])
map-snoc f [] x = refl
map-snoc f (y ∷ xs) x = ap (λ ys. f y ∷ ys) (map-snoc f xs x)

-- A claim is read alike, held alike, and reported under its key.
take_lem :
    (f : Field) (v most : Number) (vs : List Field)
    → Go.take (key_of f) v most (map key_of vs)
      ≡ ((take f v most vs).0, map key_of (take f v most vs).1)
unfolding Go.take take
take_lem f v most vs =
    rw (safe_of_lem v, math_min-left (safe v) most (safe_finite v))
      (elim (Bool-cases (most <ₙ safe v)) [
        | inl over ↦ rw over (ap (λ ks. (min (safe v) most, ks)) (map-snoc key_of vs f))
        | inr within ↦ rw within refl
      ])

hard_stop_finite : is_finite (of_ℕ 15_000) ≡ true
unfolding of_ℕ is_finite
hard_stop_finite = refl

-- The server clamps a claim to what the client clamps it to, and reports the same fields, by their
-- keys and in the same order, for every claim, tier index and wall clock.
pub clamp_telemetry_alike :
    (raw : Telemetry) (tier_index : ℤ) (wall_clock_ms : Number)
    → let ts = clamp_telemetry raw (float tier_index) wall_clock_ms in
      Go.clamp_telemetry raw tier_index wall_clock_ms
      ≡ record { telemetry = ts.telemetry; violations = map key_of ts.violations }
unfolding Go.clamp_telemetry clamp_telemetry Sim.max_pour_ms
clamp_telemetry_alike raw tier_index wall =
    let (hold, v1) = take Field.hold_ms raw.hold_ms (min wall (of_ℕ 15_000)) [] in
    let ts = telemetry_ceilings (float tier_index) (hold /ₙ of_ℕ 1000) in
    let (droplets, v2) = take Field.droplets_landed raw.droplets_landed ts.max_droplets v1 in
    let (velocity, v3) = take Field.peak_velocity raw.peak_velocity ts.max_speed v2 in
    let (same_droplets, same_speed, same_tilt) : SameCeilings tier_index (hold /ₙ of_ℕ 1000) =
      telemetry_ceilings-SameCeilings tier_index (hold /ₙ of_ℕ 1000) in
    rw
      (
        math_min-right wall (of_ℕ 15_000) hard_stop_finite,
        take_lem Field.hold_ms raw.hold_ms (min wall (of_ℕ 15_000)) [],
        same_droplets,
        take_lem Field.droplets_landed raw.droplets_landed ts.max_droplets v1,
        same_speed,
        take_lem Field.peak_velocity raw.peak_velocity ts.max_speed v2,
        same_tilt,
        take_lem Field.tilt_energy raw.tilt_energy ts.max_tilt v3,
      )
      refl
