-- ===== src/Tiers/Examples.antt =====
-- Prices and the best of a tier, at concrete inputs.
use moltenpour.Prelude.{◌/◌, ◌%◌, ◌≤◌, ◌≡◌, ◌++◌, ◌∷◌, arith}
use moltenpour.Number.{of_ℕ}
use moltenpour.Number.Order.{IsNonneg_of_IsNonnegFinite}
use moltenpour.Number.Whole.{of_ℕ-IsNonnegFinite}
use moltenpour.Text.{codes, show, fixed_digits}
use moltenpour.Text.Decimal.{read}
use moltenpour.Telemetry.{clamp_telemetry}
use moltenpour.Telemetry.Tests.{wild}
use moltenpour.Rarity.{classify}
use moltenpour.Rarity.Bands.{rank}
use moltenpour.Tiers.Defs.{format_usd, reachable_rarity}
use moltenpour.Tiers.Prices.{format_usd_lem}
use moltenpour.Tiers.Reach.{classify-le-reachable}

classify-le-reachable_example :
    rank (classify (clamp_telemetry wild (of_ℕ 0) (of_ℕ 7085)).telemetry (of_ℕ 0))
    ≤ rank (reachable_rarity (of_ℕ 0))
classify-le-reachable_example =
    classify-le-reachable wild (of_ℕ 0) (of_ℕ 7085)
      (IsNonneg_of_IsNonnegFinite (of_ℕ-IsNonnegFinite 7085))

format_usd_example :
    let dollars = show (1299 / 100) ++ b'.' ∷ fixed_digits 2 (1299 % 100) in
    (format_usd (of_ℕ 1299) ≡ codes "USD " ++ dollars) × (read dollars ≡ 1299)
format_usd_example = format_usd_lem 1299 (omega arith)
