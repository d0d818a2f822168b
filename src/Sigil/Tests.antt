-- ===== src/Sigil/Tests.antt =====
-- The hash of rows of api/sigil/testdata/corpus.json.
use moltenpour.Prelude.{◌≡◌, refl}
use moltenpour.Number.{of_ℕ, running}
use moltenpour.Telemetry.Tests.{wild_clamped}
use moltenpour.Sigil.Hash.{BurnSeed, hash_seed, seed_parts, hash_parts, hash_bytes, fnv_byte}

abbrev pub row_seed : BurnSeed
row_seed = record {
  tier_index = of_ℕ 0;
  amount_cents = of_ℕ 0;
  timestamp_ms = of_ℕ 1_750_000_000_000;
  telemetry = wild_clamped;
}

row_0 : hash_seed row_seed ≡ 2918889803
unfolding running hash_seed seed_parts hash_parts hash_bytes fnv_byte
row_0 = refl
