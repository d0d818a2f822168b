-- ===== src/Sigil/Rng.antt =====
-- The generator of app/sigil/sigil.ts: mulberry32, its state passed from draw to draw.
use moltenpour.Prelude.{ℕ, ◌+◌, bit_xor, bit_or}
use moltenpour.Number.{Number, of_ℕ, ◌/ₙ◌}
use moltenpour.Sigil.Uint32.{u32, imul, ◌>>>◌}

-- `a = (a + 0x6d2b79f5) >>> 0`.
unfoldable pub next_state : ℕ → ℕ
next_state a = u32 (a + 0x6d2b_79f5)

-- The 32 bits that a state gives.
unfoldable pub scramble : ℕ → ℕ
scramble a =
    let t = imul (bit_xor a (a >>> 15)) (bit_or 1 a) in
    let u = bit_xor (u32 (t + imul (bit_xor t (t >>> 7)) (bit_or 61 t))) t in
    u32 (bit_xor u (u >>> 14))

-- A draw: the number that the closure returns, and its state afterwards.
unfoldable pub draw : ℕ → Number × ℕ
draw a = (of_ℕ (scramble (next_state a)) /ₙ of_ℕ 4294967296, next_state a)

-- `rng(seed)`: the state before the first draw.
unfoldable pub rng : ℕ → ℕ
rng seed = u32 seed
