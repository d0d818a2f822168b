-- ===== src/Telemetry/Tests.antt =====
-- Rows of api/sigil/testdata/corpus.json.
use moltenpour.Prelude.{◌≡◌, refl, [], ◌∷◌}
use moltenpour.Number.{of_ℕ, ratio, running, element}
use moltenpour.Telemetry.Sim
use moltenpour.Telemetry.Defs.{
  Telemetry, Field, clamp_telemetry, take, safe, telemetry_ceilings, ceilings_for, flow_of,
  clamp_tier_index, tier_count, tier_bounds,
}

-- What a run of the clamp unfolds.
unfoldable pub clamping : Unit {0}
unfolding running element clamp_telemetry take safe telemetry_ceilings ceilings_for flow_of
    clamp_tier_index tier_count tier_bounds Sim.gravity Sim.spawn_vy_max Sim.spawn_vx_max
    Sim.max_pour_ms Sim.max_tilt_rate Sim.droplet_tolerance
clamping = tt

abbrev pub wild : Telemetry
wild =
    let huge = of_ℕ 9_000_000_000 in
    record { droplets_landed = huge; peak_velocity = huge; tilt_energy = huge; hold_ms = huge }

abbrev pub wild_clamped : Telemetry
wild_clamped = record {
  droplets_landed = of_ℕ 82;
  peak_velocity = ratio 19806186533505133 10_000_000_000_000;
  tilt_energy = ratio 4251 100;
  hold_ms = of_ℕ 7085;
}

row_0 : clamp_telemetry wild (of_ℕ 0) (of_ℕ 7085) ≡ record {
  telemetry = wild_clamped;
  violations = Field.hold_ms ∷ Field.droplets_landed ∷ Field.peak_velocity ∷ Field.tilt_energy ∷ [];
}
unfolding clamping
row_0 = refl

abbrev pub second : Telemetry
second = record {
  droplets_landed = of_ℕ 117;
  peak_velocity = ratio 5622646577190608 10_000_000_000_000;
  tilt_energy = ratio 491437807213515 100_000_000_000_000;
  hold_ms = of_ℕ 323;
}

row_1 : clamp_telemetry second (of_ℕ 1) (of_ℕ 13346) ≡ record {
  telemetry = record second {
    droplets_landed = of_ℕ 6;
    tilt_energy = ratio 19380000000000002 10_000_000_000_000_000;
  };
  violations = Field.droplets_landed ∷ Field.tilt_energy ∷ [];
}
unfolding clamping
row_1 = refl
