-- ===== src/Sigil/Draws.antt =====
-- How many draws a sigil consumes.
use moltenpour.Prelude.{ℕ, zero, suc, ◌+◌, ◌*◌, ◌^◌, ◌<◌, ◌≡◌, refl, arith, ap, ◌∙◌}
use moltenpour.Number.{Number}
use moltenpour.Sigil.Uint32.{u32}
use moltenpour.Sigil.Rng.{next_state, draw, rng}
use moltenpour.Sigil.Geometry.{lobes, pool_path, tendrils_from, satellites_from, generated}

-- The state after so many draws.
abbrev pub after_draws : ℕ → ℕ → ℕ
after_draws zero s = s
after_draws (suc n) s = after_draws n (next_state s)

same_count : (m n s : ℕ) → m ≡ n → after_draws m s ≡ after_draws n s
same_count m n s e = ap (λ (k : ℕ). after_draws k s) e

after_draws-append : (m n s : ℕ) → after_draws n (after_draws m s) ≡ after_draws (m + n) s
after_draws-append zero n s = same_count n (zero + n) s (omega arith)
after_draws-append (suc m) n s =
    after_draws-append m n (next_state s) ∙ same_count (suc (m + n)) (suc m + n) s (omega arith)

after_draws_closed : (n s : ℕ) → s < 2 ^ 32 → after_draws n s ≡ u32 (s + n * 0x6d2b_79f5)
unfolding next_state
after_draws_closed zero s h = omega arith
after_draws_closed (suc n) s h =
    after_draws_closed n (u32 (s + 0x6d2b_79f5)) (omega arith) ∙ omega arith

module _ (cos sin : Number → Number) where
  lobes_draws : (left i s : ℕ) → (lobes cos sin left i s).1 ≡ after_draws left s
  unfolding lobes draw
  lobes_draws zero i s = refl
  lobes_draws (suc left) i s = lobes_draws left (i + 1) (next_state s)

  tendrils_draws : (left i s : ℕ) → (tendrils_from cos sin left i s).1 ≡ after_draws (left * 3) s
  unfolding tendrils_from draw
  tendrils_draws zero i s = refl
  tendrils_draws (suc left) i s =
      tendrils_draws left (i + 1) (next_state (next_state (next_state s)))
      ∙ after_draws-append 3 (left * 3) s
      ∙ same_count (3 + left * 3) (suc left * 3) s (omega arith)

  satellites_draws :
      (left i s : ℕ) → (satellites_from cos sin left i s).1 ≡ after_draws (left * 4) s
  unfolding satellites_from draw
  satellites_draws zero i s = refl
  satellites_draws (suc left) i s =
      satellites_draws left (i + 1) (next_state (next_state (next_state (next_state s))))
      ∙ after_draws-append 4 (left * 4) s
      ∙ same_count (4 + left * 4) (suc left * 4) s (omega arith)

-- A sigil consumes 143 draws, 12 for the pool, 3 for each of nine tendrils and 4 for each of 26
-- satellites, whatever the engine's cosine and sine: the generator ends in the state that its
-- seed and 143 steps determine.
pub generated_draws :
    (cos sin : Number → Number) (seed : ℕ)
    → (generated cos sin seed).1 ≡ u32 (seed + 143 * 0x6d2b_79f5)
unfolding generated pool_path rng
generated_draws cos sin seed =
    satellites_draws cos sin 26 0 _
    ∙ ap (λ s. after_draws 104 s)
        (tendrils_draws cos sin 9 0 _
          ∙ ap (λ s. after_draws 27 s) (lobes_draws cos sin 12 0 (u32 seed)))
    ∙ ap (λ s. after_draws 104 s) (after_draws-append 12 27 (u32 seed))
    ∙ after_draws-append 39 104 (u32 seed)
    ∙ after_draws_closed 143 (u32 seed) (omega arith)
    ∙ omega arith
