-- ===== src/Rig/Defs.antt =====
-- The state of the rig, its creation and its reset, and what is read off it.
use moltenpour.Prelude.{ℕ, zero, suc, List, [], ◌∷◌, map, Bool, false, not, ◌&&◌, ◌==◌}
use moltenpour.Number.{Number, of_ℕ, ratio, ◌<ₙ◌, floor}
use moltenpour.Telemetry.{Telemetry}
use moltenpour.Sigil.{u32}
use moltenpour.Tiers.{Tier, TierFeel}

-- `MAX_BLOBS`, `SPOUT_Y`, `FLOOR_Y`, `SIM_HEIGHT`, `FEEL_EASE_RATE` and `MAX_FRAME_MS`.
abbrev pub max_blobs : ℕ
max_blobs = 32

unfoldable pub spout_y : Number
spout_y = ratio 2 10

unfoldable pub floor_y : Number
floor_y = ratio 82 100

unfoldable pub sim_height : Number
sim_height = of_ℕ 900

unfoldable pub feel_ease_rate : Number
feel_ease_rate = ratio 45 10

unfoldable pub max_frame_ms : Number
max_frame_ms = of_ℕ 50

pub record RigInput : Type 0 where
  pub pouring : Bool
  pub lean : Number
  pub tier : Tier

-- One slot of the arrays `pos`, `vel`, `rad` and `landed`.
pub record Blob : Type 0 where
  pub x : Number
  pub y : Number
  pub vx : Number
  pub vy : Number
  pub rad : Number
  pub landed : Bool

-- `random` is the state of the generator that `makeRandom` closes over.
pub record Rig : Type 0 where
  pub blobs : List Blob
  pub cursor : ℕ
  pub spawn_acc : Number
  pub feel : TierFeel
  pub hold_ms : Number
  pub droplets_landed : ℕ
  pub peak_velocity : Number
  pub tilt_energy : Number
  pub alive : ℕ
  pub airborne : ℕ
  pub finished : Bool
  pub random : ℕ

-- A slot of zeros.
unfoldable pub free_slot : Blob
free_slot = record {
  x = of_ℕ 0;
  y = of_ℕ 0;
  vx = of_ℕ 0;
  vy = of_ℕ 0;
  rad = of_ℕ 0;
  landed = false;
}

unfoldable pub free_slots : ℕ → List Blob
free_slots zero = []
free_slots (suc n) = free_slot ∷ free_slots n

unfoldable pub create_rig : Tier → ℕ → Rig
create_rig tier seed = record {
  blobs = free_slots max_blobs;
  cursor = 0;
  spawn_acc = of_ℕ 0;
  feel = tier.feel;
  hold_ms = of_ℕ 0;
  droplets_landed = 0;
  peak_velocity = of_ℕ 0;
  tilt_energy = of_ℕ 0;
  alive = 0;
  airborne = 0;
  finished = false;
  random = u32 seed;
}

-- The feel and the generator are left as they are.
unfoldable pub reset_rig : Rig → Rig
reset_rig rig = record rig {
  blobs = map (λ b. free_slot) rig.blobs;
  cursor = 0;
  spawn_acc = of_ℕ 0;
  hold_ms = of_ℕ 0;
  droplets_landed = 0;
  peak_velocity = of_ℕ 0;
  tilt_energy = of_ℕ 0;
  alive = 0;
  airborne = 0;
  finished = false;
}

unfoldable pub is_settled : Rig → Bool → Bool
is_settled rig pouring = not pouring && of_ℕ 0 <ₙ rig.hold_ms && rig.airborne == 0

unfoldable pub telemetry_of : Rig → Telemetry
telemetry_of rig = record {
  droplets_landed = of_ℕ rig.droplets_landed;
  peak_velocity = rig.peak_velocity;
  tilt_energy = rig.tilt_energy;
  hold_ms = floor rig.hold_ms;
}
