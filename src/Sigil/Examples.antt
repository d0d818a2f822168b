-- ===== src/Sigil/Examples.antt =====
-- A seed whose tier index alone changes.
use native.Mathlib.Nat.{div-eq_of_lt, pow-le-pow_right}
use moltenpour.Prelude.{ℕ, zero, suc, ◌*◌, ◌/◌, ◌^◌, ◌≡◌, ◌≢◌, refl, arith}
use moltenpour.Prelude.{List, [], ◌∷◌, ◌++◌, ◌≤◌}
use moltenpour.Number.{of_ℕ, running}
use moltenpour.Sigil.Hash.{BurnSeed, hash_seed, seed_parts}
use moltenpour.Sigil.HashLaws.{DifferOnlyAt, byte_of, hash_seed-ne}
use moltenpour.Sigil.Tests.{row_seed}

abbrev other_seed : BurnSeed
other_seed = record row_seed { tier_index = of_ℕ 1 }

abbrev rest : List ℕ
rest = 0 ∷ 1948310528 ∷ 82 ∷ 1981 ∷ 42510 ∷ 7085 ∷ []

zero_one : DifferOnlyAt 0 0 1
zero_one = record { there = λ e. omega (arith, e); elsewhere = places }
  where
    places : (j : ℕ) → j ≢ 0 → byte_of 0 j ≡ byte_of 1 j
    places zero ne = absurd (ne refl)
    places (suc j) ne =
        let large : 2 ^ 8 ≤ 2 ^ (suc j * 8) =
          pow-le-pow_right (omega arith) {i = 8} (omega arith) in
        let none : 0 / 2 ^ (suc j * 8) ≡ 0 = div-eq_of_lt (omega arith) in
        let one : 1 / 2 ^ (suc j * 8) ≡ 0 = div-eq_of_lt (omega arith) in rw (none, one)

row_parts : seed_parts row_seed ≡ [] ++ 0 ∷ rest
unfolding running seed_parts
row_parts = refl

other_parts : seed_parts other_seed ≡ [] ++ 1 ∷ rest
unfolding running seed_parts
other_parts = refl

hash_seed-ne_example : hash_seed row_seed ≢ hash_seed other_seed
hash_seed-ne_example =
    hash_seed-ne row_seed other_seed [] rest 0 0 1 (omega arith) zero_one row_parts other_parts
