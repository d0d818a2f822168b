-- ===== src/Corpus/Defs.antt =====
-- The seeded generator of the rows. `cos` and `sin` are those of the engine.
use moltenpour.Prelude.{
  ℕ, zero, suc, ◌+◌, ◌*◌, ◌%◌, ◌==◌, bit_xor, bit_or, ltb, List, [], ◌∷◌, if◌then◌else◌,
}
use moltenpour.Number.{Number, of_ℕ, ◌+ₙ◌, ◌*ₙ◌, ◌/ₙ◌, floor}
use moltenpour.Telemetry.{Telemetry, Field, clamp_telemetry}
use moltenpour.Rarity.{Rarity, rarity_score, classify}
use moltenpour.Tiers.{tier_at}
use moltenpour.Sigil.{BurnSeed, hash_seed, sigil_digest, u32, imul, ◌>>>◌}

-- `next`, with its state passed on.
unfoldable pub next : ℕ → Number × ℕ
next s =
    let a = u32 (s + 0x6d2b_79f5) in
    let t = imul (bit_xor a (a >>> 15)) (bit_or a 1) in
    let u = bit_xor t (u32 (t + imul (bit_xor t (t >>> 7)) (bit_or t 61))) in
    (of_ℕ (u32 (bit_xor u (u >>> 14))) /ₙ of_ℕ 4294967296, a)

pub record Row : Type 0 where
  pub tier_index : Number
  pub wall_clock_ms : Number
  pub raw : Telemetry
  pub timestamp_ms : Number
  pub amount_cents : Number
  pub clamped : Telemetry
  pub violations : List Field
  pub hash : ℕ
  pub rarity_score : Number
  pub rarity : Rarity
  pub sigil_digest : ℕ

-- The place of a field's name in the order of strings.
abbrev pub name_rank : Field → ℕ
name_rank Field.droplets_landed = 0
name_rank Field.hold_ms = 1
name_rank Field.peak_velocity = 2
name_rank Field.tilt_energy = 3

unfoldable pub insert : Field → List Field → List Field
insert f [] = f ∷ []
insert f (g ∷ gs) =
    let rest = insert f gs in if ltb (name_rank g) (name_rank f) then g ∷ rest else f ∷ g ∷ gs

-- `violations.slice().sort()`.
unfoldable pub sorted : List Field → List Field
sorted [] = []
sorted (f ∷ fs) = insert f (sorted fs)

-- An overclaim in every field, on every seventh row.
unfoldable pub wild_raw : Telemetry
wild_raw =
    let huge = of_ℕ 9_000_000_000 in
    record { droplets_landed = huge; peak_velocity = huge; tilt_energy = huge; hold_ms = huge }

unfoldable pub drawn_raw : ℕ → Telemetry × ℕ
drawn_raw s =
    let (d1, s1) = next s in
    let (d2, s2) = next s1 in
    let (d3, s3) = next s2 in
    let (d4, s4) = next s3 in
    (
      record {
        droplets_landed = floor (d1 *ₙ of_ℕ 140);
        peak_velocity = d2 *ₙ of_ℕ 2600;
        tilt_energy = d3 *ₙ of_ℕ 5;
        hold_ms = floor (d4 *ₙ of_ℕ 16000);
      },
      s4,
    )

unfoldable pub raw_of : ℕ → ℕ → Telemetry × ℕ
raw_of i s = if (i % 7) == 0 then (wild_raw, s) else drawn_raw s

unfoldable pub wall_of : Number → Number
wall_of d = of_ℕ 500 +ₙ floor (d *ₙ of_ℕ 16000)

unfoldable pub make_row : (cos sin : Number → Number) → ℕ → Telemetry → Number → Row
make_row cos sin i raw wall_clock_ms =
    let tier_index = of_ℕ (i % 6) in
    let c = clamp_telemetry raw tier_index wall_clock_ms in
    let seed : BurnSeed = record {
      tier_index = tier_index;
      amount_cents = (tier_at tier_index).amount_cents;
      timestamp_ms = of_ℕ (1_750_000_000_000 + i * 97_003);
      telemetry = c.telemetry;
    } in
    record {
      tier_index = tier_index;
      wall_clock_ms = wall_clock_ms;
      raw = raw;
      timestamp_ms = seed.timestamp_ms;
      amount_cents = seed.amount_cents;
      clamped = c.telemetry;
      violations = sorted c.violations;
      hash = hash_seed seed;
      rarity_score = rarity_score c.telemetry tier_index;
      rarity = classify c.telemetry tier_index;
      sigil_digest = sigil_digest cos sin (hash_seed seed);
    }

-- The loop from row i on.
unfoldable pub rows_from : (cos sin : Number → Number) → ℕ → ℕ → ℕ → List Row
rows_from cos sin zero i s = []
rows_from cos sin (suc left) i s =
    let (raw, s1) = raw_of i s in
    let (d, s2) = next s1 in make_row cos sin i raw (wall_of d) ∷ rows_from cos sin left (i + 1) s2

unfoldable pub rows : (cos sin : Number → Number) → List Row
rows cos sin = rows_from cos sin 300 0 0x5eed_1234
