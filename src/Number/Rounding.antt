-- ===== src/Number/Rounding.antt =====
-- Rounding a ratio of natural numbers to a given number of bits.
use Prim.Native.Nat.{max}
use moltenpour.Prelude.{
  ℕ, zero, suc, ◌+◌, ◌-◌, ◌*◌, ◌/◌, ◌%◌, ◌^◌, leb, ltb, if◌then◌else◌, true, false,
}

-- The number of binary digits of n, for n below 2 ^ (2 ^ k).
unfoldable pub bit_length_from : ℕ → ℕ → ℕ
bit_length_from zero n = if ltb 0 n then 1 else 0
bit_length_from (suc k) n = elim (leb (2 ^ (2 ^ k)) n) [
  | true ↦ 2 ^ k + bit_length_from k (n / 2 ^ (2 ^ k))
  | false ↦ bit_length_from k n
]

-- Every magnitude below 2 ^ 8192, which covers each exact product and quotient of two doubles.
unfoldable pub bit_length : ℕ → ℕ
bit_length n = bit_length_from 13 n

-- k or k + 1, whichever is nearer to k + r / m; the even one at a tie.
unfoldable pub nearest : ℕ → ℕ → ℕ → ℕ
nearest k r m = if ltb (2 * r) m then k else if ltb m (2 * r) then k + 1 else k + k % 2

-- The multiple of 2 ^ e nearest to n / d.
unfoldable pub round_at : ℕ → ℕ → ℕ → ℕ
round_at e n d = nearest (n / (d * 2 ^ e)) (n % (d * 2 ^ e)) (d * 2 ^ e) * 2 ^ e

-- n / d to `precision` significant bits, and to no finer a multiple than 2 ^ spacing.
unfoldable pub round_ratio : ℕ → ℕ → ℕ → ℕ → ℕ
round_ratio precision spacing n d = round_at (max (bit_length (n / d) - precision) spacing) n d

-- The integer square root, one bit at a time from bit k - 1 down.
unfoldable pub isqrt_bits : ℕ → ℕ → ℕ → ℕ
isqrt_bits zero acc n = acc
isqrt_bits (suc k) acc n =
    isqrt_bits k (if leb ((acc + 2 ^ k) * (acc + 2 ^ k)) n then acc + 2 ^ k else acc) n

unfoldable pub isqrt : ℕ → ℕ
isqrt n = isqrt_bits (bit_length n / 2 + 1) 0 n
