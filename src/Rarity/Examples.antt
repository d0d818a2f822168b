-- ===== src/Rarity/Examples.antt =====
-- The classifier's laws on two small pours.
use moltenpour.Prelude.{ℕ, ◌≤◌, ◌≡◌, refl, arith}
use moltenpour.Number.{of_ℕ}
use moltenpour.Number.UpTo.{UpTo-mono, of_ℕ-UpTo}
use moltenpour.Telemetry.{Telemetry}
use moltenpour.Telemetry.Tiers.{tier_of}
use moltenpour.Telemetry.Bounds.{IsSmall}
use moltenpour.Sigil.{BurnSeed}
use moltenpour.Rarity.Defs.{score_parts}
use moltenpour.Rarity.Refinement.{as_numbers, parts_of, measures, score_parts_lem}
use moltenpour.Rarity.Bands.{IsAtLeast}

-- A seven second pour with so many droplets.
abbrev pour : ℕ → Telemetry
pour droplets = record {
  droplets_landed = of_ℕ droplets;
  peak_velocity = of_ℕ 900;
  tilt_energy = of_ℕ 3;
  hold_ms = of_ℕ 7000;
}

pour-IsSmall : (droplets : ℕ) → droplets ≤ 2_000_000 → IsSmall (pour droplets)
pour-IsSmall droplets h = record {
  hold = UpTo-mono (omega arith) (of_ℕ-UpTo 7000);
  droplets = UpTo-mono h (of_ℕ-UpTo droplets);
  velocity = UpTo-mono (omega arith) (of_ℕ-UpTo 900);
  tilt = UpTo-mono (omega arith) (of_ℕ-UpTo 3);
}

score_parts_example :
    score_parts (pour 40) (of_ℕ 2)
    ≡ as_numbers (parts_of (measures (pour 40) (of_ℕ 2)) (tier_of (of_ℕ 2)))
score_parts_example = score_parts_lem (pour 40) (of_ℕ 2) (pour-IsSmall 40 (omega arith))

abbrev seed_of : Telemetry → BurnSeed
seed_of telemetry = record {
  tier_index = of_ℕ 2;
  amount_cents = of_ℕ 1299;
  timestamp_ms = of_ℕ 1_750_000_000_000;
  telemetry = telemetry;
}

more_droplets : IsAtLeast (pour 40) (pour 41)
unfolding of_ℕ
more_droplets = record { droplets = omega arith; velocity = omega arith; hold = refl; tilt = refl }
