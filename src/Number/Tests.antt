-- ===== src/Number/Tests.antt =====
-- Known doubles.
use moltenpour.Prelude.{◌≡◌, refl}
use moltenpour.Number.Value.{of_ℕ, ratio}
use moltenpour.Number.Ops.{running, ◌+ₙ◌, ◌/ₙ◌, ◌-ₙ◌, sqrt, floor, round, to_uint32}

tenths : ratio 1 10 +ₙ ratio 2 10 ≡ ratio 30000000000000004 100000000000000000
unfolding running
tenths = refl

root : sqrt (of_ℕ 2) ≡ ratio 14142135623730951 10000000000000000
unfolding running
root = refl

square : sqrt (of_ℕ 49) ≡ of_ℕ 7
unfolding running
square = refl

thirds : floor (of_ℕ 1000 /ₙ of_ℕ 3) ≡ of_ℕ 333
unfolding running
thirds = refl

halves : round (ratio 5 2) ≡ of_ℕ 3
unfolding running
halves = refl

wraps : to_uint32 (of_ℕ 0 -ₙ of_ℕ 1) ≡ 0xffffffff
unfolding running
wraps = refl
