-- ===== src/Rarity/Integer.antt =====
-- The score in integers: for telemetry that the clamp returns, the arithmetic in doubles is exact,
-- and gives what the same formula gives on natural numbers.
use Prim.Native.Nat.{min as min_ℕ}
use moltenpour.Prelude.{ℕ, zero, suc, ◌+◌, ◌*◌, ◌/◌, ◌^◌, ◌≤◌, ◌<◌, ◌≡◌, arith, ap, ltb, not}
use moltenpour.Number.{Number, of_ℕ, ◌<=ₙ◌, ◌+ₙ◌, ◌*ₙ◌, ◌/ₙ◌, floor}
use moltenpour.Number.Whole.{lt-of_ℕ}
use moltenpour.Number.Exact.{of_ℕ-add, of_ℕ-mul}
use moltenpour.Number.Quotient.{floor_quotient}
use moltenpour.Telemetry.{clamp_tier_index}
use moltenpour.Telemetry.Tiers.{clamp_tier_index_lem, tier_of, tier_of-lt}
use moltenpour.Rarity.Defs.{permille, base_of, tier_reach_base, tier_reach_step}

-- A part of a whole in thousandths, cut off at 1000.
abbrev pub permille_ℕ : ℕ → ℕ → ℕ
permille_ℕ value most = min_ℕ (value * 1000 / most) 1000

pub le-of_ℕ : (a b : ℕ) → of_ℕ a <=ₙ of_ℕ b ≡ not (ltb b a)
unfolding ◌<=ₙ◌ of_ℕ
le-of_ℕ a b = ap not (lt-of_ℕ b a)

pub permille-of_ℕ :
    (v m : ℕ) → v * 1000 < 2 ^ 52 → m < 2 ^ 52 → permille (of_ℕ v) (of_ℕ m) ≡ of_ℕ (permille_ℕ v m)
unfolding permille
permille-of_ℕ v zero small _ = rw (le-of_ℕ 0 0) (ap of_ℕ (omega arith))
permille-of_ℕ v (suc m) small most =
    rw
      (
        of_ℕ-mul v 1000 (omega arith),
        floor_quotient (v * 1000) (suc m) (omega arith) small most,
        le-of_ℕ (suc m) 0,
        lt-of_ℕ (v * 1000 / suc m) 0,
        lt-of_ℕ 1000 (v * 1000 / suc m),
      )
      (ground arith)

-- The score of four measures, each in thousandths, for a tier: all divisions are of natural numbers.
abbrev pub mean_ℕ : ℕ → ℕ → ℕ → ℕ → ℕ
mean_ℕ fill force commitment steadiness =
    (fill * 40 + force * 25 + commitment * 20 + steadiness * 15) / 100

abbrev pub score_ℕ : ℕ → ℕ → ℕ
score_ℕ mean tier = mean * (50 + 10 * tier) / 100

pub base-of_ℕ :
    (f g c s : ℕ)
    → f ≤ 1000
    → g ≤ 1000
    → c ≤ 1000
    → s ≤ 1000
    → base_of (of_ℕ f) (of_ℕ g) (of_ℕ c) (of_ℕ s) ≡ of_ℕ (mean_ℕ f g c s)
unfolding base_of
base-of_ℕ f g c s hf hg hc hs = rw (
  of_ℕ-mul f 40 (omega arith),
  of_ℕ-mul g 25 (omega arith),
  of_ℕ-mul c 20 (omega arith),
  of_ℕ-mul s 15 (omega arith),
  of_ℕ-add (f * 40) (g * 25) (omega arith),
  of_ℕ-add (f * 40 + g * 25) (c * 20) (omega arith),
  of_ℕ-add (f * 40 + g * 25 + c * 20) (s * 15) (omega arith),
  floor_quotient (f * 40 + g * 25 + c * 20 + s * 15) 100 (omega arith) (omega arith) (omega arith),
)

pub reach-of_ℕ :
    (tier_index : Number)
    → tier_reach_base +ₙ tier_reach_step *ₙ clamp_tier_index tier_index
      ≡ of_ℕ (50 + 10 * tier_of tier_index)
unfolding tier_reach_base tier_reach_step
reach-of_ℕ tier_index =
    let below = tier_of-lt tier_index in
    rw (
      clamp_tier_index_lem tier_index,
      of_ℕ-mul 10 (tier_of tier_index) (omega arith),
      of_ℕ-add 50 (10 * tier_of tier_index) (omega arith),
    )

pub score-of_ℕ :
    (b r : ℕ) → b ≤ 1000 → r ≤ 100 → floor (of_ℕ b *ₙ of_ℕ r /ₙ of_ℕ 100) ≡ of_ℕ (b * r / 100)
score-of_ℕ b r hb hr =
    let product : b * r ≤ 1000 * 100 = grind arith in
    rw (
      of_ℕ-mul b r (omega arith),
      floor_quotient (b * r) 100 (omega arith) (omega arith) (omega arith),
    )
