-- ===== src/Server/Sigil.antt =====
-- api/sigil: the clamp, the score and the seed hash as the server computes them. The struct Telemetry
-- is the record of app/sigil/telemetry.ts, field for field, and the strings of Rarity its four names.
use moltenpour.Prelude.{
  ℕ, zero, suc, ◌+◌, ◌*◌, ◌/◌, ◌%◌, ◌^◌, bit_xor, List, [], ◌∷◌, ◌++◌, ◌||◌, if◌then◌else◌, leb, ℤ,
  pos, negsuc, get_elem?, Option, none, some,
}
use moltenpour.Number.{
  Number, nan, of_ℕ, ratio, floor, ceil, sqrt, ◌<ₙ◌, ◌<=ₙ◌, ◌+ₙ◌, ◌-ₙ◌, ◌*ₙ◌, ◌/ₙ◌,
}
use moltenpour.Text.{Text, codes}
use moltenpour.Telemetry.{Telemetry}
use moltenpour.Rarity.{Rarity}
use moltenpour.Server.Floats.{float, is_nan, is_inf, math_min, trunc, math_mod, to_word}

unfoldable pub tier_flow : List Number
tier_flow = of_ℕ 10 ∷ of_ℕ 16 ∷ of_ℕ 20 ∷ of_ℕ 24 ∷ of_ℕ 28 ∷ of_ℕ 34 ∷ []

unfoldable pub clamp_tier_index : ℤ → ℕ
clamp_tier_index (negsuc n) = 0
clamp_tier_index (pos n) = if leb 6 n then 5 else n

-- `tierFlow[i]`; NaN stands for the panic of an index out of range.
unfoldable pub flow_at : Option Number → Number
flow_at none = nan
flow_at (some flow) = flow

pub record Ceilings : Type 0 where
  pub max_droplets : Number
  pub max_speed : Number
  pub max_tilt : Number

unfoldable pub telemetry_ceilings : ℤ → Number → Ceilings
telemetry_ceilings tier_index hold_s =
    let flow = flow_at (get_elem? tier_flow (clamp_tier_index tier_index)) in
    let max_fall = of_ℕ 120 +ₙ of_ℕ 1400 *ₙ math_min hold_s (ratio 12 10) in
    record {
      max_droplets = ceil (flow *ₙ hold_s *ₙ ratio 115 100);
      max_speed = sqrt (max_fall *ₙ max_fall +ₙ of_ℕ 2025) *ₙ ratio 11 10;
      max_tilt = of_ℕ 6 *ₙ hold_s;
    }

pub record ClampResult : Type 0 where
  pub telemetry : Telemetry
  pub violations : List Text

-- The variable `safe` of the closure `take`, after its two tests.
unfoldable pub finite_or_zero : Number → Number
finite_or_zero value = if is_nan value || is_inf value then of_ℕ 0 else value

unfoldable pub safe_of : Number → Number
safe_of value = let safe = finite_or_zero value in if safe <ₙ of_ℕ 0 then of_ℕ 0 else safe

-- The closure `take`: the value, and the violations so far.
unfoldable pub take : Text → Number → Number → List Text → Number × List Text
take key value most violations =
    let safe = safe_of value in
    (math_min safe most, if most <ₙ safe then violations ++ key ∷ [] else violations)

unfoldable pub clamp_telemetry : Telemetry → ℤ → Number → ClampResult
clamp_telemetry raw tier_index wall_clock_ms =
    let (hold, v1) = take (codes "holdMs") raw.hold_ms (math_min wall_clock_ms (of_ℕ 15000)) [] in
    let ceilings = telemetry_ceilings tier_index (hold /ₙ of_ℕ 1000) in
    let (droplets, v2) =
      take (codes "dropletsLanded") raw.droplets_landed ceilings.max_droplets v1 in
    let (velocity, v3) = take (codes "peakVelocity") raw.peak_velocity ceilings.max_speed v2 in
    let (tilt, v4) = take (codes "tiltEnergy") raw.tilt_energy ceilings.max_tilt v3 in
    record {
      telemetry = record {
        droplets_landed = droplets;
        peak_velocity = velocity;
        tilt_energy = tilt;
        hold_ms = hold;
      };
      violations = v4;
    }

unfoldable pub js_round : Number → Number
js_round v = floor (v +ₙ ratio 1 2)

unfoldable pub permille : Number → Number → Number
permille value most =
    let p = floor (value *ₙ of_ℕ 1000 /ₙ most) in
    if most <=ₙ of_ℕ 0
    then of_ℕ 0
    else if p <ₙ of_ℕ 0
    then of_ℕ 0
    else if of_ℕ 1000 <ₙ p
    then of_ℕ 1000
    else p

unfoldable pub rarity_score : Telemetry → ℤ → Number
rarity_score t tier_index =
    let hold_ms = floor t.hold_ms in
    let ceilings = telemetry_ceilings tier_index (hold_ms /ₙ of_ℕ 1000) in
    let max_speed = js_round ceilings.max_speed in
    let max_tilt_milli = js_round (ceilings.max_tilt *ₙ of_ℕ 1000) in
    let fill = permille (floor t.droplets_landed) ceilings.max_droplets in
    let force = permille (js_round t.peak_velocity) max_speed in
    let commitment = permille hold_ms (of_ℕ 15000) in
    let steadiness = of_ℕ 1000 -ₙ permille (js_round (t.tilt_energy *ₙ of_ℕ 1000)) max_tilt_milli in
    let base = floor (
      (fill *ₙ of_ℕ 40 +ₙ force *ₙ of_ℕ 25 +ₙ commitment *ₙ of_ℕ 20 +ₙ steadiness *ₙ of_ℕ 15)
      /ₙ of_ℕ 100) in
    let reach = of_ℕ 50 +ₙ of_ℕ 10 *ₙ of_ℕ (clamp_tier_index tier_index) in
    floor (base *ₙ reach /ₙ of_ℕ 100)

-- The switch of `Classify`.
unfoldable pub rarity_of : Number → Rarity
rarity_of score =
    if of_ℕ 771 <=ₙ score
    then Rarity.singular
    else if of_ℕ 665 <=ₙ score
    then Rarity.rare
    else if of_ℕ 533 <=ₙ score
    then Rarity.uncommon
    else Rarity.common

unfoldable pub classify : Telemetry → ℤ → Rarity
classify t tier_index = rarity_of (rarity_score t tier_index)

pub record BurnSeed : Type 0 where
  pub tier_index : ℤ
  pub amount_cents : ℤ
  pub timestamp_ms : ℤ
  pub telemetry : Telemetry

unfoldable pub to_uint32 : Number → ℕ
to_uint32 v =
    let m = math_mod (trunc v) (2 ^ 32) in
    if is_nan v || is_inf v then 0 else to_word (if m <ₙ of_ℕ 0 then m +ₙ of_ℕ (2 ^ 32) else m)

unfoldable pub seed_parts : BurnSeed → List ℕ
seed_parts s =
    to_uint32 (float s.tier_index)
    ∷ to_uint32 (float s.amount_cents)
    ∷ to_uint32 (float s.timestamp_ms)
    ∷ to_uint32 s.telemetry.droplets_landed
    ∷ to_uint32 (js_round s.telemetry.peak_velocity)
    ∷ to_uint32 (js_round (s.telemetry.tilt_energy *ₙ of_ℕ 1000))
    ∷ to_uint32 s.telemetry.hold_ms
    ∷ []

-- The inner loop from byte b on, with `left` rounds to go; the product wraps at 32 bits.
unfoldable pub hash_bytes : ℕ → ℕ → ℕ → ℕ → ℕ
hash_bytes zero b p h = h
hash_bytes (suc left) b p h =
    hash_bytes left (b + 1) p (bit_xor h (p / 2 ^ (b * 8) % 2 ^ 8) * 0x0100_0193 % 2 ^ 32)

-- The loop over the parts.
unfoldable pub hash_parts : List ℕ → ℕ → ℕ
hash_parts [] h = h
hash_parts (p ∷ parts) h = hash_parts parts (hash_bytes 4 0 p h)

unfoldable pub hash_seed : BurnSeed → ℕ
hash_seed s = hash_parts (seed_parts s) 0x811c_9dc5
