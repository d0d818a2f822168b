-- ===== src/Server/Seeds.antt =====
-- The score, the classification and the seed of api/sigil agree with those of app/sigil.
use native.Mathlib.Nat.{mod-eq_of_lt, mul-add-mod_self_right, div-add-mod'}
use moltenpour.Prelude.{
  ℕ, zero, suc, ◌+◌, ◌*◌, ◌/◌, ◌%◌, ◌^◌, ◌≡◌, ◌≢◌, bit_xor, refl, ap, sym, ◌∙◌, arith, List, [],
  ◌∷◌, ℤ,
}
use moltenpour.Number.{Number, fin, of_ℕ, floor, round, ◌*ₙ◌, ◌/ₙ◌}
use moltenpour.Number.Order.{◌≤ₙ◌}
use moltenpour.Telemetry.{Telemetry, telemetry_ceilings}
use moltenpour.Telemetry.Sim
use moltenpour.Telemetry.Tiers.{clamp_tier_index_lem}
use moltenpour.Rarity.{
  permille, score_parts, pour_score, rarity_score, classify, band, thresholds, base_of,
  tier_reach_base, tier_reach_step,
}
use moltenpour.Sigil.{
  BurnSeed, fnv_byte, fnv_prime, fnv_offset, hash_bytes, hash_parts, seed_parts, hash_seed,
}
use moltenpour.Sigil.HashLaws.{hash_parts-lt}
use moltenpour.Server.Floats.{float}
use moltenpour.Server.Alike.{
  SameCeilings, telemetry_ceilings-SameCeilings, clamp_tier_index-tier_of,
}
use moltenpour.Server.Words.{to_uint32_alike}
use moltenpour.Number.Held.{IsDouble}
use moltenpour.Server.Halves.{below_half}
use moltenpour.Server.Rounds.{js_round_iff}
use moltenpour.Server.Sigil as Go

-- A double that both sides round to one whole number.
pub record RoundsAlike (v : Number) : Type 0 where
  pub double : IsDouble v
  pub small : v ≤ₙ of_ℕ (2 ^ 51)
  pub other : v ≢ fin (ℤ.pos below_half)

js_round-RoundsAlike : {v : Number} → RoundsAlike v → Go.js_round v ≡ round v
js_round-RoundsAlike {v} h = (js_round_iff v h.double h.small).1 h.other

-- The seed that the client hashes, of the same pour.
abbrev pub client_seed : Go.BurnSeed → BurnSeed
client_seed s = record {
  tier_index = float s.tier_index;
  amount_cents = float s.amount_cents;
  timestamp_ms = float s.timestamp_ms;
  telemetry = s.telemetry;
}

-- What is rounded before it is hashed.
pub record IsHashable (t : Telemetry) : Type 0 where
  pub peak : RoundsAlike t.peak_velocity
  pub tilt : RoundsAlike (t.tilt_energy *ₙ of_ℕ 1000)

seed_parts_lem :
    (s : Go.BurnSeed) → IsHashable s.telemetry → Go.seed_parts s ≡ seed_parts (client_seed s)
unfolding Go.seed_parts seed_parts
seed_parts_lem s h =
    rw
      (
        js_round-RoundsAlike h.peak,
        js_round-RoundsAlike h.tilt,
        to_uint32_alike (float s.tier_index),
        to_uint32_alike (float s.amount_cents),
        to_uint32_alike (float s.timestamp_ms),
        to_uint32_alike s.telemetry.droplets_landed,
        to_uint32_alike (round s.telemetry.peak_velocity),
        to_uint32_alike (round (s.telemetry.tilt_energy *ₙ of_ℕ 1000)),
        to_uint32_alike s.telemetry.hold_ms,
      )
      refl

mod_mul : (x y m : ℕ) → x % m * y % m ≡ x * y % m
mod_mul x y m =
    let whole : x / m * m + x % m ≡ x = div-add-mod' x m in
    let split : x * y ≡ x / m * y * m + x % m * y = omega (arith, ap (λ (t : ℕ). t * y) whole) in
    sym (ap (λ (t : ℕ). t % m) split ∙ mul-add-mod_self_right (x / m * y) m (x % m * y))

hash_bytes_lem : (left b p h : ℕ) → Go.hash_bytes left b p h ≡ hash_bytes left b p h
unfolding Go.hash_bytes hash_bytes fnv_byte
hash_bytes_lem zero b p h = refl
hash_bytes_lem (suc left) b p h =
    let byte = p / 2 ^ (b * 8) % 2 ^ 8 in
    hash_bytes_lem left (b + 1) p (bit_xor h byte * fnv_prime % 2 ^ 32)
    ∙ ap (λ k. hash_bytes left (b + 1) p k) (sym (mod_mul (bit_xor h byte) fnv_prime (2 ^ 32)))

hash_parts_lem : (parts : List ℕ) (h : ℕ) → Go.hash_parts parts h ≡ hash_parts parts h
unfolding Go.hash_parts hash_parts
hash_parts_lem [] h = refl
hash_parts_lem (p ∷ parts) h =
    hash_parts_lem parts (Go.hash_bytes 4 0 p h)
    ∙ ap (λ k. hash_parts parts k) (hash_bytes_lem 4 0 p h)

-- The server hashes a pour to the seed that the client hashes it to, where the peak and the thousandfold
-- tilt are doubles from zero to 2 ^ 51 other than the one next below a half.
pub hash_seed_alike :
    (s : Go.BurnSeed) → IsHashable s.telemetry → Go.hash_seed s ≡ hash_seed (client_seed s)
unfolding Go.hash_seed hash_seed
hash_seed_alike s h =
    let same : Go.hash_parts (Go.seed_parts s) fnv_offset
        ≡ hash_parts (seed_parts (client_seed s)) fnv_offset =
      ap (λ ps. Go.hash_parts ps fnv_offset) (seed_parts_lem s h)
      ∙ hash_parts_lem (seed_parts (client_seed s)) fnv_offset in
    same ∙ sym (mod-eq_of_lt (hash_parts-lt (seed_parts (client_seed s)) fnv_offset (omega arith)))

-- What is rounded before it is scored: the pour and its ceilings.
pub record IsScorable (t : Telemetry) (tier_index : ℤ) : Type 0 where
  pub hashable : IsHashable t
  pub speed :
      RoundsAlike (telemetry_ceilings (float tier_index) (floor t.hold_ms /ₙ of_ℕ 1000)).max_speed
  pub most_tilt :
      RoundsAlike (
        (telemetry_ceilings (float tier_index) (floor t.hold_ms /ₙ of_ℕ 1000)).max_tilt
        *ₙ of_ℕ 1000)

rarity_score_lem :
    (t : Telemetry) (tier_index : ℤ)
    → IsScorable t tier_index
    → Go.rarity_score t tier_index ≡ rarity_score t (float tier_index)
unfolding Go.rarity_score rarity_score pour_score score_parts base_of tier_reach_base
    tier_reach_step Sim.max_pour_ms Go.permille permille
rarity_score_lem t tier_index h =
    let (same_droplets, same_speed, same_tilt) : SameCeilings tier_index
        (floor t.hold_ms /ₙ of_ℕ 1000) =
      telemetry_ceilings-SameCeilings tier_index (floor t.hold_ms /ₙ of_ℕ 1000) in
    rw
      (
        same_droplets,
        same_speed,
        same_tilt,
        clamp_tier_index-tier_of tier_index,
        clamp_tier_index_lem (float tier_index),
        js_round-RoundsAlike h.speed,
        js_round-RoundsAlike h.most_tilt,
        js_round-RoundsAlike h.hashable.peak,
        js_round-RoundsAlike h.hashable.tilt,
      )
      refl

-- The server scores and classifies a pour as the client does, where what is rounded for it is a double
-- from zero to 2 ^ 51 other than the one next below a half.
pub classify_alike :
    (t : Telemetry) (tier_index : ℤ)
    → IsScorable t tier_index
    → (Go.rarity_score t tier_index ≡ rarity_score t (float tier_index))
      × (Go.classify t tier_index ≡ classify t (float tier_index))
unfolding Go.classify Go.rarity_of classify band thresholds rarity_score
classify_alike t tier_index h =
    let same : Go.rarity_score t tier_index ≡ pour_score t (float tier_index) =
      unfold rarity_score in rarity_score_lem t tier_index h in
    (same, ap (λ s. band s) same)
