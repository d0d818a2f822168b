-- ===== src/Rig/Tests.antt =====
-- An empty rig, and frames of it.
use moltenpour.Prelude.{◌≡◌, refl, arith, false, true, [], ◌∷◌}
use moltenpour.Number.{Number, of_ℕ, running}
use moltenpour.Number.UpTo.{UpTo, of_ℕ-UpTo, UpTo-mono}
use moltenpour.Telemetry.Sim
use moltenpour.Tiers.{first_tier, make_tier}
use moltenpour.Rig.Step.{
  step_rig, frame_of, eased, ease_feel, ease, swept, shut, step_blobs, step_blob,
}
use moltenpour.Rig.Defs.{
  Rig, create_rig, free_slots, free_slot, is_settled, telemetry_of, max_frame_ms, feel_ease_rate,
  sim_height,
}
use moltenpour.Rig.Settled.{Tick, tick, ticks}
use moltenpour.Rig.Frozen.{is_settled_lem, ticks-hold}

-- A power that forgets its exponent.
abbrev pub pow : Number → Number → Number
pow x y = x

abbrev shut_tick : Tick
shut_tick = record {
  input = record { pouring = false; lean = of_ℕ 0; tier = first_tier };
  dt_ms = of_ℕ 16;
  width = of_ℕ 900;
  height = of_ℕ 900;
}

abbrev open_tick : Tick
open_tick = record shut_tick { input = record { pouring = true; lean = of_ℕ 0; tier = first_tier } }

-- A second of pouring, and nothing in the air.
abbrev pub poured : Rig
poured = record (create_rig first_tier 7) { hold_ms = of_ℕ 1000; droplets_landed = 9 }

poured-settled : is_settled (tick pow shut_tick poured) false ≡ true
unfolding running step_rig frame_of eased ease_feel ease swept shut step_blobs step_blob create_rig
    free_slots free_slot is_settled first_tier make_tier Sim.max_pour_ms max_frame_ms feel_ease_rate
    sim_height
poured-settled = refl

is_settled_example :
    telemetry_of (ticks pow (shut_tick ∷ shut_tick ∷ []) (tick pow shut_tick poured))
    ≡ telemetry_of (tick pow shut_tick poured)
is_settled_example =
    is_settled_lem pow poured shut_tick (shut_tick ∷ shut_tick ∷ []) poured-settled
      (refl, (refl, tt))

ticks-hold_example :
    UpTo 15_000 (ticks pow (open_tick ∷ shut_tick ∷ []) (create_rig first_tier 7)).hold_ms
ticks-hold_example =
    ticks-hold pow 16 (open_tick ∷ shut_tick ∷ []) (create_rig first_tier 7) (omega arith)
      (of_ℕ-UpTo 16, (of_ℕ-UpTo 16, tt))
      (unfold create_rig in UpTo-mono (omega arith) (of_ℕ-UpTo 0))
