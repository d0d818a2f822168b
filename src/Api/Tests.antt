-- ===== src/Api/Tests.antt =====
-- A ledger that fails once and then answers, and what the client makes of it.
use moltenpour.Prelude.{
  ℕ, zero, suc, ◌+◌, ◌*◌, ◌^◌, ◌<◌, ◌≡◌, ◌↔◌, refl, arith, inr, false, [], some, none,
}
use moltenpour.Number.{of_ℕ, is_finite, running}
use moltenpour.Text.{codes}
use moltenpour.Record.{MintRequest}
use moltenpour.Telemetry.Tests.{wild_clamped}
use moltenpour.Api.TextEq.{text_eq}
use moltenpour.Api.Json.{Json, Fields, num, str, arr, obj, nil, cons, field, end, property}
use moltenpour.Api.Errors.{
  is_ok, failure_for, code_for, server_message, message_of, worded, fallback, api_error,
  is_retryable,
}
use moltenpour.Api.Fetch.{
  returns, Attempt, answered, settle, ApiOptions, Env, Request, api_fetch, request_for, or_else,
  default_retries, default_backoff_ms, pause, prefixed, after, attempts_from, merge, has_key,
  default_base, undefined_error,
}
use moltenpour.Api.Guard.{
  assert_pour_record, bad_field, bad_telemetry, first_bad, is_string, is_finite_number, is_rarity,
  is_named, rarities, is_string_array, all_strings, malformed,
}
use moltenpour.Api.Calls.{
  mint_pour, list_pours, mint_init, mint_options, empty_init, pour_record, listing, checked,
  json_body, readable, and_then, assert_each, telemetry_json,
}
use moltenpour.Api.Pauses.{calls, slept}
use moltenpour.Api.Retry.{ends, Decides, api_fetch_lem}
use moltenpour.Api.Accepts.{IsPourRecord, assert_pour_record_iff}
use moltenpour.Api.Answers.{Answers, mint_pour-returns}

-- What a run of a call unfolds.
running_calls : Unit {0}
unfolding running api_fetch request_for default_retries default_backoff_ms pause prefixed after
    attempts_from merge has_key default_base undefined_error settle is_ok failure_for code_for
    server_message message_of worded fallback api_error is_retryable mint_pour list_pours mint_init
    mint_options empty_init pour_record listing checked json_body readable and_then assert_each
    assert_pour_record bad_field bad_telemetry first_bad is_string is_finite_number is_rarity
    is_named rarities is_string_array all_strings malformed property text_eq is_finite
    telemetry_json
running_calls = tt

abbrev pour : Fields
unfolding telemetry_json
pour = field (codes "id") (str (codes "a1")) (
    field (codes "serial") (str (codes "MP-1")) (
      field (codes "batch") (str (codes "B7")) (
        field (codes "issued") (str (codes "2026-01-02")) (
          field (codes "ledgerPosition") (num (of_ℕ 1284)) (
            field (codes "tierIndex") (num (of_ℕ 2)) (
              field (codes "amountCents") (num (of_ℕ 499)) (
                field (codes "timestampMs") (num (of_ℕ 1760000000000)) (
                  field (codes "seed") (num (of_ℕ 7)) (
                    field (codes "rarityScore") (num (of_ℕ 300)) (
                      field (codes "massGrams") (num (of_ℕ 31)) (
                        field (codes "rarity") (str (codes "Rare")) (
                          field (codes "violations") (arr (cons (str (codes "holdMs")) nil)) (
                            field (codes "telemetry") (telemetry_json wild_clamped) end)))))))))))))

abbrev ledger : Json → Request → ℕ → Attempt
ledger body req zero = answered (record { status = 503; body = none })
ledger body req (suc n) = answered (record { status = 200; body = some body })

abbrev deployment : Json → Env
deployment body = record { vite_api_base = none; fetch = ledger body }

abbrev options : ApiOptions
options = record { timeout_ms = none; retries = none; base = none; headers = []; backoff_ms = none }

abbrev request : MintRequest
request = record {
  tier_index = of_ℕ 2;
  timestamp_ms = of_ℕ 1760000000000;
  telemetry = wild_clamped;
}

minted : (mint_pour (deployment (obj pour)) request options).result ≡ returns (obj pour)
unfolding running_calls
minted = refl

listed :
    (list_pours (deployment (arr (cons (obj pour) nil))) options).result
    ≡ returns (cons (obj pour) nil)
unfolding running_calls
listed = refl

second-Decides :
    Decides
      (ledger
        (obj pour)
        (request_for (deployment (obj pour)) (codes "/api/pours") empty_init options))
      (or_else options.retries default_retries)
      1
unfolding running_calls
second-Decides = record { within = omega arith; before = first; here = inr refl }
  where
    first :
        (j : ℕ)
        → j < 1
        → ends (
            ledger
              (obj pour)
              (request_for (deployment (obj pour)) (codes "/api/pours") empty_init options)
              j)
          ≡ false
    first zero lt = refl
    first (suc j) lt = absurd (omega arith)

api_fetch_example :
    let env = deployment (obj pour) in
    let f = api_fetch env (codes "/api/pours") empty_init options in
    let backoff = or_else options.backoff_ms default_backoff_ms in
    (f.result ≡ settle (env.fetch (request_for env (codes "/api/pours") empty_init options) 1))
    × (calls f.effects ≡ 1 + 1)
    × (slept f.effects + backoff ≡ backoff * 2 ^ 1)
api_fetch_example =
    api_fetch_lem (deployment (obj pour)) (codes "/api/pours") empty_init options 1 second-Decides

assert_pour_record_example : (assert_pour_record (obj pour) ≡ returns tt) ↔ IsPourRecord (obj pour)
assert_pour_record_example = assert_pour_record_iff (obj pour)

mint_pour_example :
    Answers
      (deployment (obj pour))
      (request_for
        (deployment (obj pour))
        (codes "/api/pours")
        (mint_init request)
        (mint_options options))
      (mint_options options)
      pour_record
      (obj pour)
    × IsPourRecord (obj pour)
mint_pour_example = mint_pour-returns (deployment (obj pour)) request options (obj pour) minted
