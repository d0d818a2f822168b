-- ===== src/Telemetry/Sim.antt =====
-- `SIM` of app/sigil/telemetry.ts: the physics constants that the clamp derives from.
use moltenpour.Number.{Number, of_ℕ, ratio}

unfoldable pub gravity : Number
gravity = of_ℕ 1400

unfoldable pub spawn_vy_max : Number
spawn_vy_max = of_ℕ 120

unfoldable pub spawn_vx_max : Number
spawn_vx_max = of_ℕ 45

unfoldable pub max_pour_ms : Number
max_pour_ms = of_ℕ 15000

unfoldable pub max_tilt_rate : Number
max_tilt_rate = of_ℕ 6

unfoldable pub droplet_tolerance : Number
droplet_tolerance = ratio 115 100
