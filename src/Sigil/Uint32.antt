-- ===== src/Sigil/Uint32.antt =====
-- The 32-bit integer operators of ECMAScript, on bit patterns below 2 ^ 32. A signed intermediate
-- result has the same pattern, and only patterns are read.
use moltenpour.Prelude.{ℕ, ◌*◌, ◌/◌, ◌%◌, ◌^◌}

-- `x >>> 0` of a sum or a product.
abbrev pub u32 : ℕ → ℕ
u32 n = n % 2 ^ 32

-- `Math.imul`.
abbrev pub imul : ℕ → ℕ → ℕ
imul a b = u32 (a * b)

-- `x >>> k`.
infixl 75 ◌>>>◌
abbrev pub ◌>>>◌ : ℕ → ℕ → ℕ
x >>> k = x / 2 ^ k

-- `x & 0xff`.
abbrev pub low_byte : ℕ → ℕ
low_byte x = x % 2 ^ 8
