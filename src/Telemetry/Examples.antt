-- ===== src/Telemetry/Examples.antt =====
-- The clamp's laws on the first row of api/sigil/testdata/corpus.json.
use moltenpour.Prelude.{◌≡◌, ◌↔◌, []}
use moltenpour.Number.{of_ℕ}
use moltenpour.Number.Order.{IsNonneg, IsNonneg_of_IsNonnegFinite}
use moltenpour.Number.Whole.{of_ℕ-IsNonnegFinite}
use moltenpour.Telemetry.Defs.{clamp_telemetry}
use moltenpour.Telemetry.Clamp.{IsClamped, clamp_telemetry-IsClamped, clamp_telemetry-fixed_iff}
use moltenpour.Telemetry.Tests.{wild, wild_clamped}

wall : IsNonneg (of_ℕ 7085)
wall = IsNonneg_of_IsNonnegFinite (of_ℕ-IsNonnegFinite 7085)

clamp_telemetry-IsClamped_example :
    IsClamped (of_ℕ 0) (of_ℕ 7085) (clamp_telemetry wild (of_ℕ 0) (of_ℕ 7085)).telemetry
clamp_telemetry-IsClamped_example = clamp_telemetry-IsClamped wild (of_ℕ 0) (of_ℕ 7085) wall

clamp_telemetry-fixed_example :
    (clamp_telemetry wild_clamped (of_ℕ 0) (of_ℕ 7085)
      ≡ record { telemetry = wild_clamped; violations = [] })
    ↔ IsClamped (of_ℕ 0) (of_ℕ 7085) wild_clamped
clamp_telemetry-fixed_example = clamp_telemetry-fixed_iff wild_clamped (of_ℕ 0) (of_ℕ 7085) wall
