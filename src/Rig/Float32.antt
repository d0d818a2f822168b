-- ===== src/Rig/Float32.antt =====
-- A write to a Float32Array: the number rounded to IEEE 754 binary32.
use moltenpour.Prelude.{ℕ, ◌^◌, ltb, if◌then◌else◌}
use moltenpour.Prelude.{pos, negsuc, neg_ℕ, suc}
use moltenpour.Number.{Number, nan, pos_inf, neg_inf, fin, round_ratio}

-- 24 bits, no finer than 2 ^ -149, in units of 2 ^ -1074.
unfoldable pub magnitude32 : ℕ → ℕ
magnitude32 n = round_ratio 24 925 n 1

-- 2 ^ 128, in the same units: what rounds to this or more overflows.
unfoldable pub overflow32 : ℕ
overflow32 = 2 ^ 1202

unfoldable pub float32 : Number → Number
float32 (fin (pos n)) = let m = magnitude32 n in if ltb m overflow32 then fin (pos m) else pos_inf
float32 (fin (negsuc n)) =
    let m = magnitude32 (suc n) in if ltb m overflow32 then fin (neg_ℕ m) else neg_inf
float32 nan = nan
float32 pos_inf = pos_inf
float32 neg_inf = neg_inf
