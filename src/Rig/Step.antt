-- ===== src/Rig/Step.antt =====
-- `stepRig`: one frame of the simulation. `Math.pow` is a parameter: ECMAScript leaves its last
-- digits to the engine.
use moltenpour.Prelude.{
  ℕ, zero, suc, ◌+◌, ◌%◌, List, [], ◌∷◌, Bool, true, false, not, ◌&&◌, ◌||◌, if◌then◌else◌,
}
use moltenpour.Number.{
  Number, of_ℕ, ratio, neg, ◌+ₙ◌, ◌-ₙ◌, ◌*ₙ◌, ◌/ₙ◌, ◌<ₙ◌, ◌<=ₙ◌, min, abs, sqrt, floor,
}
use moltenpour.Number.UpTo.{nat}
use moltenpour.Telemetry.Sim
use moltenpour.Tiers.{TierFeel}
use moltenpour.Sigil.{draw}
use moltenpour.Rig.Float32.{float32}
use moltenpour.Rig.Defs.{
  Blob, Rig, RigInput, max_blobs, spout_y, floor_y, sim_height, feel_ease_rate, max_frame_ms,
}

unfoldable pub ease : Number → Number → Number → Number
ease k value target = value +ₙ (target -ₙ value) *ₙ k

unfoldable pub ease_feel : Number → TierFeel → TierFeel → TierFeel
ease_feel k feel target = record {
  viscosity = ease k feel.viscosity target.viscosity;
  iridescence = ease k feel.iridescence target.iridescence;
  roughness = ease k feel.roughness target.roughness;
  radius = ease k feel.radius target.radius;
}

-- The constants of a frame.
pub record Frame : Type 0 where
  pub dt : Number
  pub scale : Number
  pub width : Number
  pub height : Number
  pub drag : Number
  pub viscosity : Number
  pub pouring : Bool

-- A write to one slot.
unfoldable pub put : ℕ → Blob → List Blob → List Blob
put i b [] = []
put zero b (c ∷ cs) = b ∷ cs
put (suc i) b (c ∷ cs) = c ∷ put i b cs

-- The droplet that a turn of the spawn loop puts into its slot, and the generator afterwards.
unfoldable pub droplet : Number → Number → Number → Number → Number → ℕ → Blob × ℕ
droplet scale width height lean radius s =
    let (r1, s1) = draw s in
    let (r2, s2) = draw s1 in
    let (r3, s3) = draw s2 in
    let (r4, s4) = draw s3 in
    (
      record {
        x = float32 (
            width *ₙ ratio 5 10
            +ₙ (r1 -ₙ ratio 5 10) *ₙ of_ℕ 28 *ₙ scale
            +ₙ lean *ₙ width *ₙ ratio 16 100);
        y = float32 (height *ₙ spout_y);
        vx = float32 (
            ((r2 -ₙ ratio 5 10) *ₙ of_ℕ 2 *ₙ Sim.spawn_vx_max +ₙ lean *ₙ Sim.spawn_vx_max)
            *ₙ scale);
        vy = float32 (r3 *ₙ Sim.spawn_vy_max *ₙ scale);
        rad = float32 (radius *ₙ scale *ₙ (ratio 7 10 +ₙ r4 *ₙ ratio 6 10));
        landed = false;
      },
      s4,
    )

unfoldable pub spawn_one : Frame → Number → Rig → Rig
spawn_one f lean rig =
    let (b, s) = droplet f.scale f.width f.height lean rig.feel.radius rig.random in
    record rig {
      spawn_acc = rig.spawn_acc -ₙ of_ℕ 1;
      cursor = (rig.cursor + 1) % max_blobs;
      blobs = put rig.cursor b rig.blobs;
      random = s;
    }

-- `while (rig.spawnAcc >= 1)`, for at most so many turns: each takes one off the accumulator.
unfoldable pub spawn_loop : ℕ → Frame → Number → Rig → Rig
spawn_loop zero f lean rig = rig
spawn_loop (suc turns) f lean rig =
    if of_ℕ 1 <=ₙ rig.spawn_acc then spawn_loop turns f lean (spawn_one f lean rig) else rig

-- The branch of an open stream, and of a shut one.
unfoldable pub pour_in : Frame → RigInput → Number → Rig → Rig
pour_in f input dt_ms rig =
    let acc = rig.spawn_acc +ₙ f.dt *ₙ input.tier.flow in
    spawn_loop (nat (floor acc) + 1) f input.lean (record rig {
      hold_ms = min (rig.hold_ms +ₙ dt_ms) Sim.max_pour_ms;
      tilt_energy = rig.tilt_energy +ₙ min (abs input.lean) (of_ℕ 1) *ₙ Sim.max_tilt_rate *ₙ f.dt;
      spawn_acc = acc;
    })

unfoldable pub shut : Rig → Rig
shut rig = record rig { spawn_acc = of_ℕ 0 }

-- What the loop over the slots counts.
pub record Tally : Type 0 where
  pub alive : ℕ
  pub airborne : ℕ
  pub landings : ℕ
  pub peak : Number

-- Gravity, drag and motion.
unfoldable pub moved : Frame → Blob → Blob
moved f b =
    let vy = float32 (b.vy +ₙ Sim.gravity *ₙ f.scale *ₙ f.dt) in
    let vx = float32 (b.vx *ₙ f.drag) in
    record b { vy = vy; vx = vx; x = float32 (b.x +ₙ vx *ₙ f.dt); y = float32 (b.y +ₙ vy *ₙ f.dt) }

unfoldable pub speed_of : Frame → Blob → Number
speed_of f b = sqrt (b.vx *ₙ b.vx +ₙ b.vy *ₙ b.vy) /ₙ f.scale

-- A blob in the air is counted and, under an open stream, measured.
unfoldable pub sampled : Frame → Blob → Tally → Tally
sampled f b t = if b.landed then t else record t {
  airborne = suc t.airborne;
  peak = if f.pouring && t.peak <ₙ speed_of f b then speed_of f b else t.peak;
}

-- A blob below the floor bounces.
unfoldable pub bounced : Frame → Blob → Blob
bounced f b = record b {
  y = float32 (f.height *ₙ floor_y);
  vy = float32 (b.vy *ₙ neg (ratio 28 100 *ₙ (of_ℕ 1 -ₙ f.viscosity)));
  vx = float32 (b.vx *ₙ (of_ℕ 1 -ₙ f.viscosity *ₙ ratio 7 10));
  rad = float32 (b.rad *ₙ (of_ℕ 1 -ₙ ratio 12 100 *ₙ f.viscosity));
  landed = true;
}

unfoldable pub counted : Bool → Tally → Tally
counted true t = t
counted false t = record t { landings = suc t.landings }

unfoldable pub below_floor : Frame → Blob → Bool
below_floor f b = f.height *ₙ floor_y <ₙ b.y

-- A slot is freed once its blob has left the stage or dissolved.
unfoldable pub is_gone : Frame → Blob → Bool
is_gone f b = b.x <ₙ neg (of_ℕ 80) || f.width +ₙ of_ℕ 80 <ₙ b.x || b.rad <ₙ of_ℕ 4 *ₙ f.scale

unfoldable pub freed : Frame → Blob → Blob
freed f b = if is_gone f b then record b { rad = of_ℕ 0 } else b

-- The end of a round: the floor, then the freeing.
unfoldable pub settle_blob : Frame → Blob → Tally → Blob × Tally
settle_blob f b t =
    if below_floor f b then (freed f (bounced f b), counted b.landed t) else (freed f b, t)

-- A round of the loop over the slots.
unfoldable pub step_blob : Frame → Blob → Tally → Blob × Tally
step_blob f b t =
    let m = moved f b in
    if b.rad <=ₙ of_ℕ 0
    then (b, t)
    else settle_blob f m (sampled f m (record t { alive = suc t.alive }))

unfoldable pub step_blobs : Frame → List Blob → Tally → List Blob × Tally
step_blobs f [] t = ([], t)
step_blobs f (b ∷ bs) t =
    let (c, u) = step_blob f b t in let (cs, v) = step_blobs f bs u in (c ∷ cs, v)

-- The frame that `stepRig` computes from its arguments.
unfoldable pub frame_of :
    (pow : Number → Number → Number) → Rig → RigInput → Number → Number → Number → Frame
frame_of pow rig input dt_ms width height =
    let dt = min dt_ms max_frame_ms /ₙ of_ℕ 1000 in
    let feel = ease_feel (min (of_ℕ 1) (dt *ₙ feel_ease_rate)) rig.feel input.tier.feel in
    record {
      dt = dt;
      scale = height /ₙ sim_height;
      width = width;
      height = height;
      drag = pow (of_ℕ 1 -ₙ feel.viscosity *ₙ ratio 55 100) (dt *ₙ of_ℕ 8);
      viscosity = feel.viscosity;
      pouring = input.pouring && not rig.finished;
    }

unfoldable pub eased : Frame → RigInput → Rig → Rig
eased f input rig = record rig {
  feel = ease_feel (min (of_ℕ 1) (f.dt *ₙ feel_ease_rate)) rig.feel input.tier.feel;
}

-- The loop over the slots, and what is written back.
unfoldable pub swept : Frame → Rig → Rig
swept f rig =
    let (blobs, t) = step_blobs f rig.blobs (record {
      alive = 0;
      airborne = 0;
      landings = rig.droplets_landed;
      peak = rig.peak_velocity;
    }) in
    record rig {
      blobs = blobs;
      droplets_landed = t.landings;
      peak_velocity = t.peak;
      alive = t.alive;
      airborne = t.airborne;
      finished = Sim.max_pour_ms <=ₙ rig.hold_ms;
    }

unfoldable pub step_rig :
    (pow : Number → Number → Number) → Rig → RigInput → Number → Number → Number → Rig
step_rig pow rig input dt_ms width height =
    let f = frame_of pow rig input dt_ms width height in
    let r = eased f input rig in swept f (if f.pouring then pour_in f input dt_ms r else shut r)
