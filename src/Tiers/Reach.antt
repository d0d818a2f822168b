-- ===== src/Tiers/Reach.antt =====
-- No pour of a tier earns more than `reachableRarity` of the tier says.
use moltenpour.Prelude.{ℕ, zero, suc, ◌+◌, ◌*◌, ◌≤◌, ◌<◌, ◌≡◌, refl, arith, ap, ◌∙◌}
use moltenpour.Number.{Number, of_ℕ}
use moltenpour.Telemetry.{Telemetry, clamp_telemetry}
use moltenpour.Telemetry.Sim
use moltenpour.Number.Order.{IsNonneg}
use moltenpour.Telemetry.Clamp.{clamp_telemetry-IsClamped}
use moltenpour.Telemetry.Tiers.{
  tier_of, tier_of-lt, telemetry_ceilings_congr, clamp_tier_index_congr,
}
use moltenpour.Telemetry.Bounds.{IsClamped-IsSmall}
use moltenpour.Rarity.{classify, pour_score, score_parts}
use moltenpour.Rarity.Bands.{rank, band_ℕ, band_ℕ-mono, classify_lem, score-le}
use moltenpour.Rarity.Refinement.{measures}
use moltenpour.Rarity.Tests.{scoring}
use moltenpour.Tiers.Defs.{reachable_rarity, flawless}

reachable : (tier : ℕ) → tier < 6 → reachable_rarity (of_ℕ tier) ≡ band_ℕ (500 + 100 * tier)
unfolding scoring reachable_rarity flawless
reachable zero h = refl
reachable (suc zero) h = refl
reachable (suc (suc zero)) h = refl
reachable (suc (suc (suc zero))) h = refl
reachable (suc (suc (suc (suc zero)))) h = refl
reachable (suc (suc (suc (suc (suc zero))))) h = refl
reachable (suc (suc (suc (suc (suc (suc tier)))))) h = absurd (omega arith)

clamp_congr :
    (raw : Telemetry) (x wall : Number)
    → clamp_telemetry raw x wall ≡ clamp_telemetry raw (of_ℕ (tier_of x)) wall
unfolding clamp_telemetry
clamp_congr raw x wall = rw (telemetry_ceilings_congr x)

classify_congr : (t : Telemetry) (x : Number) → classify t x ≡ classify t (of_ℕ (tier_of x))
unfolding classify pour_score score_parts
classify_congr t x = rw (telemetry_ceilings_congr x, clamp_tier_index_congr x)

-- The best classification of a tier: common, uncommon, rare, and singular from the fourth tier on,
-- which a score of 500, 600, 700, ... thousandths earns.
pub reachable_rarity_lem : (x : Number) → reachable_rarity x ≡ band_ℕ (500 + 100 * tier_of x)
reachable_rarity_lem x = congr ∙ reachable (tier_of x) (tier_of-lt x)
  where
    congr : reachable_rarity x ≡ reachable_rarity (of_ℕ (tier_of x))
    congr =
        unfold reachable_rarity in
        ap (λ c. classify c.telemetry x) (clamp_congr flawless x Sim.max_pour_ms)
        ∙ classify_congr _ x

-- Whatever a client claims, the clamped pour is classified no higher than `reachableRarity` of the
-- tier: a flawless pour is the best that the tier can buy. The wall clock is a number at or above
-- zero, and the tier index is any number.
pub classify-le-reachable :
    (raw : Telemetry) (tier_index wall : Number)
    → IsNonneg wall
    → rank (classify (clamp_telemetry raw tier_index wall).telemetry tier_index)
      ≤ rank (reachable_rarity tier_index)
classify-le-reachable raw tier_index wall w =
    let t = (clamp_telemetry raw tier_index wall).telemetry in
    let small = IsClamped-IsSmall w (clamp_telemetry-IsClamped raw tier_index wall w) in
    rw (classify_lem t tier_index small, reachable_rarity_lem tier_index)
      (band_ℕ-mono _ _ (score-le (measures t tier_index) (tier_of tier_index)))
