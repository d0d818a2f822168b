-- ===== src/Api/Calls.antt =====
-- The four calls of the API: `mintPour`, `listPours`, `getPour` and `getConfig`.
use moltenpour.Prelude.{ℕ, List, [], ◌∷◌, ◌++◌, Option, none, some}
use moltenpour.Text.{Text, codes}
use moltenpour.Number.{Number}
use moltenpour.Telemetry.{Telemetry}
use moltenpour.Record.{MintRequest}
use moltenpour.Api.Json.{Json, Items, num, arr, obj, nil, cons, field, end, property}
use moltenpour.Api.Errors.{ApiErrorCode, api_error, Response}
use moltenpour.Api.Fetch.{
  Result, returns, throws, Effect, Fetched, ApiOptions, Env, Init, api_fetch, mint_timeout_ms,
  or_else,
}
use moltenpour.Api.Guard.{assert_pour_record}
use moltenpour.Api.Uri.{encode_uri_component}

-- What a call ends with, and what it did.
pub record Called {ℓ} (A : Type ℓ) : Type ℓ where
  pub result : Result A
  pub effects : List Effect

-- A throw ends the function that awaits it.
unfoldable pub and_then {ℓ κ} : {A : Type ℓ} {B : Type κ} → Result A → (A → Result B) → Result B
and_then (returns a) f = f a
and_then (throws e) f = throws e

-- What `res.json()` gives, or the error of its throw, with the status of the answer.
unfoldable pub readable : ℕ → Option Json → Result Json
readable status (some body) = returns body
readable status none =
    throws
      (api_error ApiErrorCode.server status (codes "The ledger returned an unreadable answer."))

unfoldable pub json_body : Response → Result Json
json_body res = readable res.status res.body

-- What every call does with the answer: read it, and check it.
unfoldable pub checked {ℓ} : {A : Type ℓ} → Fetched → (Json → Result A) → Called A
checked f check = record {
  result = and_then f.result (λ res. and_then (json_body res) check);
  effects = f.effects;
}

-- `assertPourRecord(record); return record`.
unfoldable pub pour_record : Json → Result Json
pour_record record_json = and_then (assert_pour_record record_json) (λ u. returns record_json)

unfoldable pub telemetry_json : Telemetry → Json
telemetry_json t = obj (
    field (codes "dropletsLanded") (num t.droplets_landed) (
      field (codes "peakVelocity") (num t.peak_velocity) (
        field (codes "tiltEnergy") (num t.tilt_energy)
          (field (codes "holdMs") (num t.hold_ms) end))))

-- What `JSON.stringify` prints of the request.
unfoldable pub request_json : MintRequest → Json
request_json req = obj (
    field (codes "tierIndex") (num req.tier_index) (
      field (codes "timestampMs") (num req.timestamp_ms)
        (field (codes "telemetry") (telemetry_json req.telemetry) end)))

-- `{}`: a GET without a body.
unfoldable pub empty_init : Init
empty_init = record { method = codes "GET"; headers = []; body = none }

unfoldable pub mint_init : MintRequest → Init
mint_init req = record {
  method = codes "POST";
  headers = (codes "content-type", codes "application/json") ∷ [];
  body = some (request_json req);
}

-- `{ timeoutMs: MINT_TIMEOUT_MS, ...opts }`.
unfoldable pub mint_options : ApiOptions → ApiOptions
mint_options opts = record opts { timeout_ms = some (or_else opts.timeout_ms mint_timeout_ms) }

unfoldable pub mint_pour : Env → MintRequest → ApiOptions → Called Json
mint_pour env req opts =
    checked (api_fetch env (codes "/api/pours") (mint_init req) (mint_options opts)) pour_record

-- `list.forEach(assertPourRecord)`: the first bad record throws.
unfoldable pub assert_each : Items → Result (Unit {0})
assert_each nil = returns tt
assert_each (cons x xs) = and_then (assert_pour_record x) (λ u. assert_each xs)

unfoldable pub listing : Json → Result Items
listing (arr list) = and_then (assert_each list) (λ u. returns list)
listing v =
    throws (api_error ApiErrorCode.server 0 (codes "The ledger returned a malformed listing."))

unfoldable pub list_pours : Env → ApiOptions → Called Items
list_pours env opts = checked (api_fetch env (codes "/api/pours") empty_init opts) listing

unfoldable pub get_pour : Env → Text → ApiOptions → Called Json
get_pour env id opts =
    checked (api_fetch env (codes "/api/pours/" ++ encode_uri_component id) empty_init opts)
      pour_record

-- `typeof config.maxTierIndex`, and the number.
unfoldable pub number_of : Option Json → Option Number
number_of (some (num n)) = some n
number_of v = none

unfoldable pub max_tier_index_of : Json → Option Number
max_tier_index_of (obj x) = number_of (property (codes "maxTierIndex") x)
max_tier_index_of v = none

unfoldable pub configuration : Json → Result Json
configuration config = elim (max_tier_index_of config) [
  | some n ↦ returns config
  | none ↦
      throws
        (api_error ApiErrorCode.server 0 (codes "The ledger returned a malformed configuration."))
]

unfoldable pub get_config : Env → ApiOptions → Called Json
get_config env opts = checked (api_fetch env (codes "/api/config") empty_init opts) configuration
