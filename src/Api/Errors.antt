-- ===== src/Api/Errors.antt =====
-- `ApiError`, and what a response that is no success is reported as.
use moltenpour.Prelude.{
  ℕ, leb, ◌==◌, if◌then◌else◌, Bool, true, false, ◌&&◌, Option, none, some, ◌∷◌,
}
use moltenpour.Text.{Text, codes}
use moltenpour.Api.Json.{Json, str, obj, property}

pub data ApiErrorCode : Type 0 where
  network timeout client server conflict : ApiErrorCode

pub record ApiError : Type 0 where
  pub code : ApiErrorCode
  pub status : ℕ
  pub message : Text
  pub retryable : Bool

-- `code === "network" || code === "timeout" || code === "server"`.
unfoldable pub is_retryable : ApiErrorCode → Bool
is_retryable ApiErrorCode.network = true
is_retryable ApiErrorCode.timeout = true
is_retryable ApiErrorCode.server = true
is_retryable ApiErrorCode.client = false
is_retryable ApiErrorCode.conflict = false

-- The constructor.
unfoldable pub api_error : ApiErrorCode → ℕ → Text → ApiError
api_error code status message = record {
  code = code;
  status = status;
  message = message;
  retryable = is_retryable code;
}

-- `FALLBACK`.
unfoldable pub fallback : ApiErrorCode → Text
fallback ApiErrorCode.network = codes "The ledger could not be reached."
fallback ApiErrorCode.timeout = codes "The ledger did not answer."
fallback ApiErrorCode.client = codes "The ledger refused the request."
fallback ApiErrorCode.server = codes "The ledger failed to process the request."
fallback ApiErrorCode.conflict = codes "The request conflicts with the ledger."

-- An answer of the server. `body` is what `res.json()` resolves to, `none` where it throws.
pub record Response : Type 0 where
  pub status : ℕ
  pub body : Option Json

-- `res.ok`.
unfoldable pub is_ok : Response → Bool
is_ok res = leb 200 res.status && leb res.status 299

-- A text that is not empty.
unfoldable pub worded : Option Json → Option Text
worded (some (str (c ∷ s))) = some (c ∷ s)
worded v = none

-- The text under "error" of an object.
unfoldable pub message_of : Json → Option Text
message_of (obj fields) = worded (property (codes "error") fields)
message_of v = none

unfoldable pub server_message : Response → Option Text
server_message res = elim res.body [ none ↦ none | some body ↦ message_of body ]

unfoldable pub code_for : ℕ → ApiErrorCode
code_for status =
    if status == 409
    then ApiErrorCode.conflict
    else if leb 500 status
    then ApiErrorCode.server
    else ApiErrorCode.client

unfoldable pub failure_for : Response → ApiError
failure_for res =
    let code = code_for res.status in
    api_error code res.status (elim (server_message res) [ some m ↦ m | none ↦ fallback code ])
