-- ===== src/Sigil/Hash.antt =====
-- `hashSeed` of app/sigil/sigil.ts.
use moltenpour.Prelude.{ℕ, zero, suc, ◌+◌, ◌*◌, bit_xor, List, [], ◌∷◌}
use moltenpour.Number.{Number, of_ℕ, round, ◌*ₙ◌, to_uint32}
use moltenpour.Telemetry.{Telemetry}
use moltenpour.Sigil.Uint32.{u32, imul, ◌>>>◌, low_byte}

pub record BurnSeed : Type 0 where
  pub tier_index : Number
  pub amount_cents : Number
  pub timestamp_ms : Number
  pub telemetry : Telemetry

-- The 32-bit FNV offset basis and prime.
abbrev pub fnv_offset : ℕ
fnv_offset = 0x811c_9dc5

abbrev pub fnv_prime : ℕ
fnv_prime = 0x0100_0193

-- The body of the inner loop: one byte into the hash.
unfoldable pub fnv_byte : ℕ → ℕ → ℕ
fnv_byte h byte = imul (u32 (bit_xor h byte)) fnv_prime

-- The inner loop from byte b on, with `left` rounds to go.
unfoldable pub hash_bytes : ℕ → ℕ → ℕ → ℕ → ℕ
hash_bytes zero b p h = h
hash_bytes (suc left) b p h = hash_bytes left (b + 1) p (fnv_byte h (low_byte (p >>> (b * 8))))

-- The outer loop.
unfoldable pub hash_parts : List ℕ → ℕ → ℕ
hash_parts [] h = h
hash_parts (p ∷ parts) h = hash_parts parts (hash_bytes 4 0 p h)

-- The hashed fields in their fixed order.
unfoldable pub seed_parts : BurnSeed → List ℕ
seed_parts seed =
    let t = seed.telemetry in
    to_uint32 seed.tier_index
    ∷ to_uint32 seed.amount_cents
    ∷ to_uint32 seed.timestamp_ms
    ∷ to_uint32 t.droplets_landed
    ∷ to_uint32 (round t.peak_velocity)
    ∷ to_uint32 (round (t.tilt_energy *ₙ of_ℕ 1000))
    ∷ to_uint32 t.hold_ms
    ∷ []

unfoldable pub hash_seed : BurnSeed → ℕ
hash_seed seed = u32 (hash_parts (seed_parts seed) fnv_offset)
