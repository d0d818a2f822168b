-- ===== src/Server/Tests.antt =====
-- The ledger server on concrete pours.
use moltenpour.Prelude.{
  sym, ◌∙◌, ℕ, ◌+◌, ◌^◌, ◌≡◌, ◌≢◌, refl, ap, arith, [], ◌∷◌, length, All, ◌↔◌, ◌-◌, some, true, pos,
  map, ◌+ℤ◌,
}
use moltenpour.Number.{Number, ◌*ₙ◌, unit, round, fin, of_ℕ, running}
use moltenpour.Text.{Text, codes, pad_start, pad_from, show, show_from}
use moltenpour.Telemetry.{Telemetry, safe, clamp_telemetry}
use moltenpour.Number.Held.{IsDouble}
use moltenpour.Server.Halves.{below_half}
use moltenpour.Server.Rounds.{js_round_iff}
use moltenpour.Server.Seeds.{client_seed}
use moltenpour.Server.Floats.{float, is_nan, is_inf, to_word, math_mod, trunc}
use moltenpour.Server.Alike.{key_of, clamp_telemetry_alike}
use moltenpour.Server.Pour.{
  Record, Request, is_tier, is_timely, skew_ms, minted, mint, burn_seed, wall_clock_ms, issued_on,
  year_of_era, day_of_year, month_of,
}
use moltenpour.Server.Store.{
  MemoryStore, new_memory_store, find_start, append, append_or_replay, recorded, list_owned,
}
use moltenpour.Server.Handlers.{
  decoded, handle_mint, mint_owned, mint_decoded, mint_for, append_request, key_for, mint_response,
  record_response, handle_list, all_records,
}
use moltenpour.Server.Ledger.{IsLedger}
use moltenpour.Server.Register.{LedgerReachable, LedgerReachable-IsLedger}
use moltenpour.Server.Once.{MintCall, serve, handle_mint_once}
use moltenpour.Server.Owners.{
  IsPrivate, LedgerReachable-IsPrivate, Listing, count_owned, handle_list-Listing,
}
use moltenpour.Server.Preview.{minted_alike}
use moltenpour.Rarity.{rarity_score, classify}
use moltenpour.Telemetry.Tests.{wild, wild_clamped, clamping}
use moltenpour.Sigil.{hash_seed, hash_parts, hash_bytes, seed_parts, fnv_byte}
use moltenpour.Server.Sigil as Go

abbrev telemetry : Telemetry
telemetry = record {
  droplets_landed = of_ℕ 8;
  peak_velocity = of_ℕ 412;
  tilt_energy = of_ℕ 2;
  hold_ms = of_ℕ 1000;
}

abbrev seed : Go.BurnSeed
seed = record {
  tier_index = pos 0;
  amount_cents = pos 0;
  timestamp_ms = pos 1_760_000_000_000;
  telemetry = telemetry;
}

-- The speed that the two sides hash apart.
js_round_iff_example :
    (Go.js_round (fin (pos below_half)) ≡ round (fin (pos below_half)))
    ↔ (fin (pos below_half) ≢ fin (pos below_half))
js_round_iff_example =
    js_round_iff (fin (pos below_half)) (IsDouble.held (2 ^ 53 - 1) 1020 (omega arith))
      (unfold of_ℕ unit in omega arith)

clamp_telemetry_alike_example : Go.clamp_telemetry wild (pos 0) (of_ℕ 7085) ≡ record {
  telemetry = (clamp_telemetry wild (float (pos 0)) (of_ℕ 7085)).telemetry;
  violations = map key_of (clamp_telemetry wild (float (pos 0)) (of_ℕ 7085)).violations;
}
clamp_telemetry_alike_example = clamp_telemetry_alike wild (pos 0) (of_ℕ 7085)

abbrev owner : Text
owner = codes "a1"

abbrev asked : Request
asked = record { tier_index = pos 0; timestamp_ms = pos 1_760_000_000_000; telemetry = telemetry }

abbrev now : ℕ
now = 1_760_000_001_000

-- The request again, with a claim that is out of all bounds.
abbrev again : Request
again = record asked { telemetry = wild }

abbrev first : Record
first = minted asked 1 owner now

abbrev first_ledger : MemoryStore
first_ledger = (handle_mint (pos 5) true (some owner) (decoded asked) now new_memory_store).1

reached : LedgerReachable first_ledger
reached = LedgerReachable.asked (pos 5) true (some owner) (decoded asked) now LedgerReachable.empty

created :
    (handle_mint (pos 5) true (some owner) (decoded asked) now new_memory_store).0
    ≡ record_response 201 first
unfolding handle_mint mint_owned mint_decoded mint_for append_request append append_or_replay
    find_start key_for new_memory_store recorded mint is_tier is_timely skew_ms mint_response ◌+ℤ◌
created = refl

-- Another owner's pour in between.
abbrev between : MintCall
between = record {
  max_tier_index = pos 5;
  allowed = true;
  owner = some (codes "b2");
  body = decoded asked;
  now_ms = now;
}

handle_mint_once_example :
    handle_mint
      (pos 5)
      true
      (some owner)
      (decoded again)
      (now + 5000)
      (serve between first_ledger).1
    ≡ (record_response 200 first, (serve between first_ledger).1)
handle_mint_once_example =
    handle_mint_once (pos 5) owner asked now new_memory_store first (between ∷ []) again
      (now + 5000) created refl refl refl

LedgerReachable-IsLedger_example : IsLedger first_ledger
LedgerReachable-IsLedger_example = LedgerReachable-IsLedger first_ledger reached

LedgerReachable-IsPrivate_example : All (λ rec. IsPrivate first_ledger rec) first_ledger.records
LedgerReachable-IsPrivate_example = LedgerReachable-IsPrivate first_ledger reached

handle_list-Listing_example :
    (handle_list (some owner) first_ledger
      ≡ record { status = 200; body = all_records (list_owned owner first_ledger) })
    × Listing owner first_ledger
        (count_owned owner first_ledger.records)
        (1 + length first_ledger.records)
        (list_owned owner first_ledger)
handle_list-Listing_example = handle_list-Listing first_ledger owner reached

issued_leap_day : issued_on 1_709_164_800_000 ≡ codes "2024-02-29"
unfolding issued_on year_of_era day_of_year month_of pad_start pad_from show show_from
issued_leap_day = refl

-- The first row of api/sigil/testdata/corpus.json.
row_0 :
    Go.hash_seed (record seed { timestamp_ms = pos 1_750_000_000_000; telemetry = wild_clamped })
    ≡ 2918889803
unfolding running float Go.hash_seed Go.hash_parts Go.seed_parts Go.hash_bytes Go.to_uint32 is_nan
    is_inf to_word math_mod trunc Go.js_round
row_0 = refl

abbrev slow : Go.BurnSeed
slow = record seed { telemetry = record telemetry { peak_velocity = fin (pos below_half) } }

-- A pour that the two sides hash to different seeds.
seeds_apart : Go.hash_seed slow ≢ hash_seed (client_seed slow)
unfolding running float Go.hash_seed Go.hash_parts Go.seed_parts Go.hash_bytes Go.to_uint32 is_nan
    is_inf to_word math_mod trunc Go.js_round hash_seed hash_parts hash_bytes seed_parts fnv_byte
seeds_apart = λ e. absurd (omega (arith, e))

-- The clamp leaves the claim as it is.
reckoned :
    (clamp_telemetry asked.telemetry
      (float asked.tier_index)
      (wall_clock_ms now asked.timestamp_ms)).telemetry
    ≡ telemetry
unfolding clamping float wall_clock_ms ◌+ℤ◌
reckoned = refl

peak_double : IsDouble (safe (of_ℕ 412))
unfolding clamping
peak_double = IsDouble.held 412 1074 (omega arith)

abbrev units : Number → ℕ
units (fin (pos n)) = n
units x = 0

peak_far : of_ℕ 412 ≢ fin (pos below_half)
unfolding of_ℕ unit
peak_far e = omega (arith, ap (λ x. units x) e)

tilt_far : of_ℕ 2 *ₙ of_ℕ 1000 ≢ fin (pos below_half)
unfolding running
tilt_far e = omega (arith, ap (λ x. units x) e)

minted_alike_example :
    let ts =
      clamp_telemetry asked.telemetry
        (float asked.tier_index)
        (wall_clock_ms now asked.timestamp_ms) in
    (first.telemetry ≡ ts.telemetry)
    × (first.violations ≡ map key_of ts.violations)
    × (first.seed ≡ hash_seed (client_seed (burn_seed asked ts.telemetry)))
    × (first.rarity_score ≡ rarity_score ts.telemetry (float (pos 0)))
    × (first.rarity ≡ classify ts.telemetry (float (pos 0)))
minted_alike_example =
    minted_alike asked 1 owner now peak_double
      (λ e. peak_far (sym (ap (λ t. t.peak_velocity) reckoned) ∙ e))
      (λ e. tilt_far (sym (ap (λ t. t.tilt_energy *ₙ of_ℕ 1000) reckoned) ∙ e))
