-- ===== src/Server/Handlers.antt =====
-- api/httpapi/server.go: what POST /api/pours, GET /api/pours and GET /api/pours/{id} answer, over the
-- ledger in memory. Whether the limiter lets a request pass, the owner of the session and the decoded
-- body come in as values.
use moltenpour.Prelude.{
  ℕ, List, ◌++◌, Option, none, some, Bool, true, false, if◌then◌else◌, ℤ, ltb_ℤ,
}
use moltenpour.Text.{Text, codes}
use moltenpour.Server.Pour.{
  Record, Request, Returned, returned, failed, validation, conflict, not_found, mint,
}
use moltenpour.Server.Store.{MemoryStore, MintKey, append, get, list_owned}

pub data Body : Type 0 where
  one_record : Record → Body
  all_records : List Record → Body
  error_text : Text → Body

pub record Response : Type 0 where
  pub status : ℕ
  pub body : Body

-- The body as the decoder reads it: a request, or its complaint.
pub data Decoded : Type 0 where
  decoded : Request → Decoded
  malformed : Text → Decoded

-- `writeErr`.
abbrev pub error_response : ℕ → Text → Response
error_response status message = record { status = status; body = error_text message }

abbrev pub record_response : ℕ → Record → Response
record_response status rec = record { status = status; body = one_record rec }

-- What is answered to the outcome of `Append`.
unfoldable pub mint_response : Returned (Record × Bool) → Response
mint_response (failed (validation message)) = error_response 400 message
mint_response (failed conflict) =
    error_response 409 (codes "a different pour was already minted at this start time")
mint_response (failed _) = error_response 500 (codes "could not mint the pour")
mint_response (returned (rec, true)) = record_response 200 rec
mint_response (returned (rec, false)) = record_response 201 rec

unfoldable pub key_for : Text → Request → MintKey
key_for owner_id req = record {
  owner_id = owner_id;
  timestamp_ms = req.timestamp_ms;
  tier_index = req.tier_index;
}

unfoldable pub append_request :
    Text → Request → ℕ → MemoryStore → Returned (Record × Bool) × MemoryStore
append_request owner_id req now_ms s =
    append (key_for owner_id req) (λ position. mint req position owner_id now_ms) s

-- The part of `handleMint` behind its guards.
unfoldable pub mint_for : Text → Request → ℕ → MemoryStore → Response × MemoryStore
mint_for owner_id req now_ms s =
    let (answer, after) = append_request owner_id req now_ms s in (mint_response answer, after)

unfoldable pub mint_decoded : ℤ → Text → Decoded → ℕ → MemoryStore → Response × MemoryStore
mint_decoded max_tier_index owner_id (malformed complaint) now_ms s =
    (error_response 400 (codes "malformed request: " ++ complaint), s)
mint_decoded max_tier_index owner_id (decoded req) now_ms s =
    if ltb_ℤ max_tier_index req.tier_index
    then (error_response 400 (codes "that tier is not available"), s)
    else mint_for owner_id req now_ms s

unfoldable pub mint_owned : ℤ → Option Text → Decoded → ℕ → MemoryStore → Response × MemoryStore
mint_owned max_tier_index none body now_ms s =
    (error_response 500 (codes "could not establish a session"), s)
mint_owned max_tier_index (some owner_id) body now_ms s =
    mint_decoded max_tier_index owner_id body now_ms s

-- `handleMint`.
unfoldable pub handle_mint :
    ℤ → Bool → Option Text → Decoded → ℕ → MemoryStore → Response × MemoryStore
handle_mint max_tier_index allowed owner_id body now_ms s =
    if allowed
    then mint_owned max_tier_index owner_id body now_ms s
    else (error_response 429 (codes "too many pours in a short time; try again shortly"), s)

-- `handleGet`.
unfoldable pub get_response : Returned Record → Response
get_response (returned rec) = record_response 200 rec
get_response (failed not_found) = error_response 404 (codes "no such pour")
get_response (failed _) = error_response 500 (codes "could not read the ledger")

unfoldable pub handle_get : Option Text → Text → MemoryStore → Response
handle_get none id s = error_response 500 (codes "could not establish a session")
handle_get (some owner_id) id s = get_response (get id owner_id s)

-- `handleList`, over a store whose listing does not fail.
unfoldable pub handle_list : Option Text → MemoryStore → Response
handle_list none s = error_response 500 (codes "could not establish a session")
handle_list (some owner_id) s = record { status = 200; body = all_records (list_owned owner_id s) }
