-- ===== src/Tiers/Defs.antt =====
-- app/ceremony/tiers.ts: what a pour costs, how fast it flows, and the best that it can earn.
use moltenpour.Prelude.{ℕ, suc, List, [], ◌∷◌, ◌++◌, Option, none, some, get_elem?, if◌then◌else◌}
use moltenpour.Number.{Number, of_ℕ, ratio, ◌<=ₙ◌, ◌/ₙ◌, element}
use moltenpour.Text.{Text, codes, show, to_fixed}
use moltenpour.Telemetry.Sim
use moltenpour.Telemetry.{Telemetry, TierBounds, tier_bounds, clamp_telemetry}
use moltenpour.Rarity.{Rarity, classify}

unfoldable pub amount_cents : List Number
amount_cents = of_ℕ 0 ∷ of_ℕ 299 ∷ of_ℕ 1299 ∷ of_ℕ 2999 ∷ of_ℕ 5999 ∷ of_ℕ 14900 ∷ []

unfoldable pub tier_names : List Text
tier_names =
    codes "Sample"
    ∷ codes "Measure"
    ∷ codes "Draught"
    ∷ codes "Vessel"
    ∷ codes "Crucible"
    ∷ codes "Full Pour"
    ∷ []

unfoldable pub tier_notes : List Text
tier_notes =
    codes "Free of charge, free of merit. The house pours what it cannot sell."
    ∷ codes "The minimum viable genuflection. Thin, but sincere in its way."
    ∷ codes "Enough to be noticed by staff. Coats the glass on the way down."
    ∷ codes "Gold-adjacent, legally distinct from gold. Nobody checks."
    ∷ codes "Refracts your name in the light, briefly, at certain angles."
    ∷ codes "Volume is the only remaining virtue. The vessel is a formality."
    ∷ []

pub record TierFeel : Type 0 where
  pub viscosity : Number
  pub iridescence : Number
  pub roughness : Number
  pub radius : Number

-- The numbers of a feel, three of them in hundredths.
abbrev feel : ℕ → ℕ → ℕ → ℕ → TierFeel
feel viscosity iridescence roughness radius = record {
  viscosity = ratio viscosity 100;
  iridescence = ratio iridescence 100;
  roughness = ratio roughness 100;
  radius = of_ℕ radius;
}

unfoldable pub tier_feel : List TierFeel
tier_feel =
    feel 15 0 75 16
    ∷ feel 45 0 40 22
    ∷ feel 60 10 30 26
    ∷ feel 72 25 12 30
    ∷ feel 82 75 6 34
    ∷ feel 92 100 3 40
    ∷ []

pub record Tier : Type 0 where
  pub index : ℕ
  pub name : Text
  pub flow : Number
  pub amount_cents : Number
  pub note : Text
  pub feel : TierFeel

-- `xs[index] ?? other`.
abbrev or_else {ℓ} : {A : Type ℓ} → Option A → A → A
or_else none other = other
or_else (some a) other = a

-- The callback of the `map` that makes `TIERS`.
unfoldable pub make_tier : TierBounds → ℕ → Tier
make_tier bounds index = record {
  index = index;
  name = or_else (get_elem? tier_names index) (codes "Tier " ++ show index);
  flow = bounds.flow;
  amount_cents = or_else (get_elem? amount_cents index) (of_ℕ 0);
  note = or_else (get_elem? tier_notes index) [];
  feel = or_else (get_elem? tier_feel index) (feel 15 0 75 16);
}

unfoldable pub map_index : List TierBounds → ℕ → List Tier
map_index [] index = []
map_index (bounds ∷ rest) index = make_tier bounds index ∷ map_index rest (suc index)

unfoldable pub tiers : List Tier
tiers = map_index tier_bounds 0

-- `TIERS[0]`.
unfoldable pub first_tier : Tier
first_tier = make_tier (record { flow = of_ℕ 10 }) 0

unfoldable pub tier_at : Number → Tier
tier_at index = or_else (element tiers index) first_tier

unfoldable pub format_usd : Number → Text
format_usd amount = codes "USD " ++ to_fixed 2 (amount /ₙ of_ℕ 100)

unfoldable pub format_consideration : Number → Text
format_consideration amount = if amount <=ₙ of_ℕ 0 then codes "Free" else format_usd amount

-- `MAX_POUR_MS`.
unfoldable pub max_pour_ms : Number
max_pour_ms = Sim.max_pour_ms

-- The claim of a flawless pour.
unfoldable pub flawless : Telemetry
flawless = record {
  droplets_landed = of_ℕ 9_000_000_000;
  peak_velocity = of_ℕ 9_000_000_000;
  tilt_energy = of_ℕ 0;
  hold_ms = Sim.max_pour_ms;
}

unfoldable pub reachable_rarity : Number → Rarity
reachable_rarity tier_index =
    classify (clamp_telemetry flawless tier_index Sim.max_pour_ms).telemetry tier_index
