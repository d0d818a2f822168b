-- ===== src/Api/Fetch.antt =====
-- `apiFetch`: the attempts, the pauses between them, and the result.
use moltenpour.Prelude.{
  ℕ, zero, suc, ◌+◌, ◌-◌, ◌*◌, ◌^◌, if◌then◌else◌, Bool, false, List, [], ◌∷◌, ◌++◌, ltb, Option,
  none, some, ◌||◌,
}
use moltenpour.Text.{Text}
use moltenpour.Api.TextEq.{text_eq}
use moltenpour.Api.Json.{Json}
use moltenpour.Api.Errors.{
  ApiError, ApiErrorCode, api_error, fallback, Response, is_ok, failure_for,
}

-- What a call may end with.
pub data Result {ℓ} (A : Type ℓ) : Type ℓ where
  returns : A → Result A
  throws : ApiError → Result A

-- What `fetch` does with one request: it resolves, it rejects with a timeout or an abort, or it
-- rejects with anything else.
pub data Attempt : Type 0 where
  answered : Response → Attempt
  timed_out : Attempt
  unreachable : Attempt

-- What the loop does to the world, in order.
pub data Effect : Type 0 where
  sleep : ℕ → Effect
  call : Effect

-- One round of the loop: the answer, or the error that becomes `last`.
unfoldable pub settle : Attempt → Result Response
settle (answered res) = if is_ok res then returns res else throws (failure_for res)
settle timed_out = throws (api_error ApiErrorCode.timeout 0 (fallback ApiErrorCode.timeout))
settle unreachable = throws (api_error ApiErrorCode.network 0 (fallback ApiErrorCode.network))

pub record Fetched : Type 0 where
  pub result : Result Response
  pub effects : List Effect

-- `a ?? b`.
abbrev pub or_else {ℓ} : {A : Type ℓ} → Option A → A → A
or_else none b = b
or_else (some a) b = a

-- Whether a header stands in a list.
unfoldable pub has_key : Text → List (Text × Text) → Bool
has_key k [] = false
has_key k ((j, v) ∷ rest) = text_eq j k || has_key k rest

-- The pause in front of an attempt.
unfoldable pub pause : ℕ → ℕ → List Effect
pause backoff_ms attempt = if ltb 0 attempt then sleep (backoff_ms * 2 ^ (attempt - 1)) ∷ [] else []

unfoldable pub prefixed : List Effect → Fetched → Fetched
prefixed before f = record f { effects = before ++ f.effects }

-- The end of a round: `return res`, `break` and throw, or the next round.
unfoldable pub after : (ApiError → Fetched) → Result Response → Fetched
after next (returns res) = record { result = returns res; effects = [] }
after next (throws last) =
    if last.retryable then next last else record { result = throws last; effects = [] }

-- The loop from `attempt` on, with so many rounds left; past them it throws `last`.
unfoldable pub attempts_from : (ℕ → Attempt) → ℕ → ℕ → ℕ → ApiError → Fetched
attempts_from fetch backoff_ms zero attempt last = record { result = throws last; effects = [] }
attempts_from fetch backoff_ms (suc left) attempt last =
    prefixed (pause backoff_ms attempt ++ call ∷ [])
      (after (attempts_from fetch backoff_ms left (attempt + 1)) (settle (fetch attempt)))

-- `ApiOptions`; `none` is a field left out.
pub record ApiOptions : Type 0 where
  pub timeout_ms : Option ℕ
  pub retries : Option ℕ
  pub base : Option Text
  pub headers : List (Text × Text)
  pub backoff_ms : Option ℕ

unfoldable pub read_timeout_ms : ℕ
read_timeout_ms = 10_000

unfoldable pub mint_timeout_ms : ℕ
mint_timeout_ms = 20_000

unfoldable pub default_retries : ℕ
default_retries = 2

unfoldable pub default_backoff_ms : ℕ
default_backoff_ms = 300

-- What `fetch` is called with.
pub record Request : Type 0 where
  pub method : Text
  pub url : Text
  pub headers : List (Text × Text)
  pub body : Option Json
  pub timeout_ms : ℕ

-- `RequestInit`, as the callers use it.
pub record Init : Type 0 where
  pub method : Text
  pub headers : List (Text × Text)
  pub body : Option Json

-- `{ ...first, ...second }`: the value of the second wins.
unfoldable pub merge : List (Text × Text) → List (Text × Text) → List (Text × Text)
merge [] second = second
merge ((k, v) ∷ first) second =
    let rest = merge first second in if has_key k second then rest else (k, v) ∷ rest

-- Before the first round `last` is undefined; the first round always runs and sets it.
unfoldable pub undefined_error : ApiError
undefined_error = api_error ApiErrorCode.network 0 []

-- What the module runs in: `VITE_API_BASE`, and what each attempt of a request meets.
pub record Env : Type 0 where
  pub vite_api_base : Option Text
  pub fetch : Request → ℕ → Attempt

unfoldable pub default_base : Env → Text
default_base env = or_else env.vite_api_base []

unfoldable pub request_for : Env → Text → Init → ApiOptions → Request
request_for env path init opts = record {
  method = init.method;
  url = or_else opts.base (default_base env) ++ path;
  headers = merge init.headers opts.headers;
  body = init.body;
  timeout_ms = or_else opts.timeout_ms read_timeout_ms;
}

-- `attempt <= retries` admits retries + 1 rounds.
unfoldable pub api_fetch : Env → Text → Init → ApiOptions → Fetched
api_fetch env path init opts =
    attempts_from (env.fetch (request_for env path init opts))
      (or_else opts.backoff_ms default_backoff_ms) (suc (or_else opts.retries default_retries)) 0
      undefined_error
