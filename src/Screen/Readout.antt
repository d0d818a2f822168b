-- ===== src/Screen/Readout.antt =====
-- `paintReadout` of app/ceremony/PourScreen.tsx: what the loop writes into the page. A node is written
-- only where it differs, which leaves it as if it were always written. `setUnlit` is here too.
use moltenpour.Prelude.{ℕ, List, [], ◌∷◌, ◌++◌, if◌then◌else◌}
use moltenpour.Number.{Number, of_ℕ, round, ◌/ₙ◌}
use moltenpour.Text.{Text, codes, show, show_number, to_fixed}
use moltenpour.Api.{text_eq}
use moltenpour.Telemetry.{Telemetry}
use moltenpour.Rarity.{ScoreParts, score_parts}
use moltenpour.Rig.{Rig, telemetry_of, max_blobs}

-- The texts and the widths of the bars.
pub record Readout : Type 0 where
  pub elapsed : Text
  pub drops : Text
  pub values : List Text
  pub bars : List Text
  pub score : Text
  pub score_bar : Text

-- `text` and `width`: a write that changes nothing is left out.
unfoldable pub write : Text → Text → Text
write old value = if text_eq old value then old else value

unfoldable pub bar_width : Number → Text
bar_width permille = to_fixed 1 (permille /ₙ of_ℕ 10) ++ codes "%"

unfoldable pub read_values : Rig → Telemetry → ScoreParts → List Text
read_values rig telemetry parts =
    show_number telemetry.droplets_landed
    ∷ show_number (round telemetry.peak_velocity)
    ∷ (to_fixed 1 (rig.hold_ms /ₙ of_ℕ 1000) ++ codes "s")
    ∷ (to_fixed 0 (parts.steadiness /ₙ of_ℕ 10) ++ codes "%")
    ∷ []

unfoldable pub painted : Rig → ℕ → Readout
painted rig tier_index =
    let telemetry = telemetry_of rig in
    let parts = score_parts telemetry (of_ℕ tier_index) in
    record {
      elapsed = to_fixed 2 (rig.hold_ms /ₙ of_ℕ 1000) ++ codes " s";
      drops =
          show rig.droplets_landed
          ++ codes " drops · "
          ++ show rig.alive
          ++ codes "/"
          ++ show max_blobs;
      values = read_values rig telemetry parts;
      bars =
          bar_width parts.fill
          ∷ bar_width parts.force
          ∷ bar_width parts.commitment
          ∷ bar_width parts.steadiness
          ∷ [];
      score = show_number parts.score ++ codes " / 1000";
      score_bar = bar_width parts.score;
    }
