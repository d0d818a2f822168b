-- ===== src/Server/Preview.antt =====
-- What the client reckons of a pour by itself, app/sigil/sigil.ts and rarity.ts over the clamped claim, and
-- what the ledger mints.
use moltenpour.Prelude.{
  ℕ, suc, ◌≡◌, ◌≢◌, ap, ◌∙◌, map, ℤ, pos, negsuc, arith, Bool-cases, inl, inr, if◌then◌else◌, ltb,
  neg_ℤ, ◌+ℤ◌, ◌+◌, ◌*◌,
}
use moltenpour.Number.{fin, unit, of_ℕ, neg, ◌<ₙ◌, ◌*ₙ◌}
use moltenpour.Number.Order.{IsNonneg}
use moltenpour.Number.Held.{IsDouble}
use moltenpour.Text.{Text}
use moltenpour.Telemetry.{safe, clamp_telemetry}
use moltenpour.Rarity.{rarity_score, classify}
use moltenpour.Sigil.{hash_seed}
use moltenpour.Server.Floats.{float}
use moltenpour.Server.Pour.{Request, wall_clock_ms, burn_seed, minted}
use moltenpour.Server.Alike.{key_of, clamp_telemetry_alike}
use moltenpour.Server.Halves.{below_half}
use moltenpour.Server.Seeds.{client_seed, hash_seed_alike, classify_alike}
use moltenpour.Server.Scored.{clamped-IsScorable}
use moltenpour.Server.Sigil as Go

at_least_zero : (z : ℤ) → IsNonneg (if fin z <ₙ of_ℕ 0 then of_ℕ 0 else fin z)
unfolding of_ℕ ◌<ₙ◌
at_least_zero (pos n) = elim (Bool-cases (ltb (n + 0) (0 * unit + 0))) [
  | inl less ↦ rw less (IsNonneg.finite _)
  | inr more ↦ rw more (IsNonneg.finite n)
]
at_least_zero (negsuc n) = elim (Bool-cases (ltb 0 (0 * unit + suc n))) [
  | inl below ↦ rw below (IsNonneg.finite _)
  | inr above ↦ ground arith
]

wall_clock_ms-IsNonneg :
    (now_ms : ℕ) (timestamp_ms : ℤ) → IsNonneg (wall_clock_ms now_ms timestamp_ms)
unfolding wall_clock_ms
wall_clock_ms-IsNonneg now_ms timestamp_ms = cut (pos now_ms +ℤ neg_ℤ timestamp_ms)
  where
    cut : (z : ℤ) → IsNonneg (if float z <ₙ of_ℕ 0 then of_ℕ 0 else float z)
    cut (pos n) = unfold float of_ℕ in at_least_zero (pos (n * unit))
    cut (negsuc n) = unfold float of_ℕ neg in at_least_zero (neg_ℤ (pos (suc n * unit)))

-- The record that the ledger mints of a request has the telemetry and the violations of the clamp of the
-- client, and the seed, the score and the rarity that the client reckons of it, where the peak is claimed as
-- a double, and neither the clamped peak nor the thousandfold clamped tilt is the double next below a half.
pub minted_alike :
    (req : Request) (position : ℕ) (owner_id : Text) (now_ms : ℕ)
    → let ts =
        clamp_telemetry req.telemetry
          (float req.tier_index)
          (wall_clock_ms now_ms req.timestamp_ms) in
      let rec = minted req position owner_id now_ms in
      IsDouble (safe req.telemetry.peak_velocity)
      → ts.telemetry.peak_velocity ≢ fin (pos below_half)
      → ts.telemetry.tilt_energy *ₙ of_ℕ 1000 ≢ fin (pos below_half)
      → (rec.telemetry ≡ ts.telemetry)
        × (rec.violations ≡ map key_of ts.violations)
        × (rec.seed ≡ hash_seed (client_seed (burn_seed req ts.telemetry)))
        × (rec.rarity_score ≡ rarity_score ts.telemetry (float req.tier_index))
        × (rec.rarity ≡ classify ts.telemetry (float req.tier_index))
unfolding minted burn_seed
minted_alike req position owner_id now_ms double peak tilt =
    let wall = wall_clock_ms now_ms req.timestamp_ms in
    let ts = clamp_telemetry req.telemetry (float req.tier_index) wall in
    let scorable =
      clamped-IsScorable req.telemetry req.tier_index wall
        (wall_clock_ms-IsNonneg now_ms req.timestamp_ms) double peak tilt in
    let same : (Go.clamp_telemetry req.telemetry req.tier_index wall).telemetry ≡ ts.telemetry =
      ap (λ r. r.telemetry) (clamp_telemetry_alike req.telemetry req.tier_index wall) in
    let (score, rarity) = classify_alike ts.telemetry req.tier_index scorable in
    (
      same,
      ap (λ r. r.violations) (clamp_telemetry_alike req.telemetry req.tier_index wall),
      ap (λ t. Go.hash_seed (burn_seed req t)) same
          ∙ hash_seed_alike (burn_seed req ts.telemetry) scorable.hashable,
      ap (λ t. Go.rarity_score t req.tier_index) same ∙ score,
      ap (λ t. Go.classify t req.tier_index) same ∙ rarity,
    )
