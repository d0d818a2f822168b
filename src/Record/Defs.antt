-- ===== src/Record/Defs.antt =====
-- The pour record, the request, the server's configuration, and the formatters.
use moltenpour.Prelude.{ℕ, List, ◌++◌}
use moltenpour.Number.{Number}
use moltenpour.Text.{Text, codes, to_fixed, grouped}
use moltenpour.Telemetry.{Telemetry}
use moltenpour.Rarity.{Rarity}

pub record PourRecord : Type 0 where
  pub id : Text
  pub ledger_position : Number
  pub tier_index : Number
  pub amount_cents : Number
  pub timestamp_ms : Number
  pub telemetry : Telemetry
  pub violations : List Text
  pub seed : Number
  pub rarity : Rarity
  pub rarity_score : Number
  pub serial : Text
  pub batch : Text
  pub mass_grams : Number
  pub issued : Text

pub record MintRequest : Type 0 where
  pub tier_index : Number
  pub timestamp_ms : Number
  pub telemetry : Telemetry

pub record ServerConfig : Type 0 where
  pub max_tier_index : Number

unfoldable pub format_mass : Number → Text
format_mass grams = to_fixed 2 grams ++ codes " g"

-- A position in the ledger is a whole number.
unfoldable pub format_ledger_position : ℕ → Text
format_ledger_position position = codes "No. " ++ grouped position

unfoldable pub format_ordinal : ℕ → Text
format_ordinal position = codes "№" ++ grouped position
