-- ===== src/Rarity/Tests.antt =====
-- Scores of rows of api/sigil/testdata/corpus.json.
use moltenpour.Prelude.{◌≡◌, refl}
use moltenpour.Number.{of_ℕ}
use moltenpour.Telemetry.Tests.{clamping, wild_clamped}
use moltenpour.Rarity.Defs.{
  Rarity, rarity_score, pour_score, classify, band, thresholds, score_parts, base_of, permille,
  tier_reach_base, tier_reach_step,
}

-- What a run of the classifier unfolds.
unfoldable pub scoring : Unit {0}
unfolding clamping rarity_score pour_score classify band thresholds score_parts base_of permille
    tier_reach_base tier_reach_step
scoring = tt

row_0 : rarity_score wild_clamped (of_ℕ 0) ≡ of_ℕ 372
unfolding scoring
row_0 = refl

row_0_rarity : classify wild_clamped (of_ℕ 0) ≡ Rarity.common
unfolding scoring
row_0_rarity = refl
