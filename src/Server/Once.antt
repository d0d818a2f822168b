-- ===== src/Server/Once.antt =====
-- A pour is minted once: what a retry gets.
use moltenpour.Prelude.{
  ℕ, ◌+◌, ◌≡◌, ◌≢◌, refl, ap, sym, ◌∙◌, arith, List, [], ◌∷◌, length, Option, none, some,
  Option-cases, Bool, true, false, Bool-cases, inl, inr, ℤ, ltb_ℤ,
}
use moltenpour.Text.{Text}
use moltenpour.Server.Pour.{
  Record, Request, Returned, returned, failed, LedgerError, validation, conflict, not_found,
  store_failure, minted, mint,
}
use moltenpour.Server.Store.{
  MemoryStore, MintKey, StartKey, same_int, start_of, find_start, replay, recorded,
  append_or_replay, append,
}
use moltenpour.Server.Handlers.{
  Decoded, decoded, malformed, Response, record_response, mint_response, key_for, append_request,
  mint_for, mint_decoded, mint_owned, handle_mint,
}
use moltenpour.Server.Ledger.{find_start-older, same_start_refl}
use moltenpour.Server.Register.{mint_returned}

-- A request to mint, with what the server makes of it.
pub record MintCall : Type 0 where
  pub max_tier_index : ℤ
  pub allowed : Bool
  pub owner : Option Text
  pub body : Decoded
  pub now_ms : ℕ

abbrev pub serve : MintCall → MemoryStore → Response × MemoryStore
serve c s = handle_mint c.max_tier_index c.allowed c.owner c.body c.now_ms s

-- The ledger after the calls, one after the other.
abbrev pub serve_all : List MintCall → MemoryStore → MemoryStore
serve_all [] s = s
serve_all (c ∷ cs) s = serve_all cs (serve c s).1

-- A start that is on the ledger stays there, with its record.
append-kept :
    (key : StartKey) (rec : Record) (owner_id : Text) (req : Request) (now_ms : ℕ) (s : MemoryStore)
    → find_start key s.by_start ≡ some rec
    → find_start key (append_request owner_id req now_ms s).1.by_start ≡ some rec
unfolding append_request append
append-kept key rec owner_id req now_ms s h =
    elim (Option-cases (find_start (start_of (key_for owner_id req)) s.by_start)) [
      | inl missing ↦ rw missing (
          unfold append_or_replay in
          taken missing (mint req (length s.records + 1) owner_id now_ms))
      | inr (existing, found) ↦ rw found (unfold append_or_replay in h)
    ]
  where
    taken :
        find_start (start_of (key_for owner_id req)) s.by_start ≡ none
        → (r : Returned Record)
        → find_start key (recorded (start_of (key_for owner_id req)) r s).1.by_start ≡ some rec
    taken missing (failed e) = unfold recorded in h
    taken missing (returned new) =
        unfold recorded in
        find_start-older key (start_of (key_for owner_id req)) rec new s.by_start h missing

serve-kept :
    (key : StartKey) (rec : Record) (most : ℤ) (allowed : Bool) (owner : Option Text)
    (body : Decoded) (now_ms : ℕ) (s : MemoryStore)
    → find_start key s.by_start ≡ some rec
    → find_start key (handle_mint most allowed owner body now_ms s).1.by_start ≡ some rec
unfolding handle_mint mint_owned mint_decoded mint_for
serve-kept key rec most false owner body now_ms s h = h
serve-kept key rec most true none body now_ms s h = h
serve-kept key rec most true (some owner_id) (malformed complaint) now_ms s h = h
serve-kept key rec most true (some owner_id) (decoded req) now_ms s h =
    elim (Bool-cases (ltb_ℤ most req.tier_index)) [
      | inl refused ↦ rw refused h
      | inr offered ↦ rw offered (append-kept key rec owner_id req now_ms s h)
    ]

serve_all-kept :
    (key : StartKey) (rec : Record) (cs : List MintCall) (s : MemoryStore)
    → find_start key s.by_start ≡ some rec
    → find_start key (serve_all cs s).by_start ≡ some rec
serve_all-kept key rec [] s h = h
serve_all-kept key rec (c ∷ cs) s h =
    serve_all-kept key rec cs (serve c s).1
      (serve-kept key rec c.max_tier_index c.allowed c.owner c.body c.now_ms s h)

-- What 201 says.
abbrev Created : Text → Request → Record → MemoryStore → Type 0
Created owner_id req rec s =
    (find_start (start_of (key_for owner_id req)) s.by_start ≡ some rec)
    × (rec.tier_index ≡ req.tier_index)

replay-status :
    (key : MintKey) (existing rec : Record)
    → mint_response (replay key existing) ≢ record_response 201 rec
unfolding replay mint_response
replay-status key existing rec = elim (Bool-cases (same_int existing.tier_index key.tier_index)) [
  | inl same ↦ rw same (λ e. absurd (omega (arith, ap (λ r. r.status) e)))
  | inr other ↦ rw other (λ e. absurd (omega (arith, ap (λ r. r.status) e)))
]

failed-status :
    (e : LedgerError) (rec : Record) → mint_response (failed e) ≢ record_response 201 rec
unfolding mint_response
failed-status (validation message) rec = λ h. omega (arith, ap (λ r. r.status) h)
failed-status conflict rec = λ h. omega (arith, ap (λ r. r.status) h)
failed-status not_found rec = λ h. omega (arith, ap (λ r. r.status) h)
failed-status store_failure rec = λ h. omega (arith, ap (λ r. r.status) h)

recorded-Created :
    (owner_id : Text) (req : Request) (now_ms : ℕ) (s : MemoryStore) (rec : Record)
    (r : Returned Record)
    → mint req (length s.records + 1) owner_id now_ms ≡ r
    → mint_response (recorded (start_of (key_for owner_id req)) r s).0 ≡ record_response 201 rec
    → Created owner_id req rec (recorded (start_of (key_for owner_id req)) r s).1
unfolding recorded
recorded-Created owner_id req now_ms s rec (failed e) made h = absurd (failed-status e rec h)
recorded-Created owner_id req now_ms s rec (returned new) made h =
    let same : new ≡ rec = unfold mint_response in record_response-injective new rec h in
    let facts = mint_returned req (length s.records + 1) owner_id now_ms new made in
    (
      unfold find_start in rw (same_start_refl (start_of (key_for owner_id req))) (ap some same),
      sym (ap (λ r. r.tier_index) same) ∙ ap (λ r. r.tier_index) facts ∙ (unfold minted in refl),
    )
  where
    record_response-injective :
        (a b : Record) → record_response 201 a ≡ record_response 201 b → a ≡ b
    record_response-injective a b e = cc

append-Created :
    (owner_id : Text) (req : Request) (now_ms : ℕ) (s : MemoryStore) (rec : Record)
    → mint_response (append_request owner_id req now_ms s).0 ≡ record_response 201 rec
    → Created owner_id req rec (append_request owner_id req now_ms s).1
unfolding append_request append
append-Created owner_id req now_ms s rec =
    elim (Option-cases (find_start (start_of (key_for owner_id req)) s.by_start)) [
      | inl missing ↦ rw missing (
          unfold append_or_replay in
          recorded-Created owner_id req now_ms s rec
            (mint req (length s.records + 1) owner_id now_ms) refl)
      | inr (existing, found) ↦ rw found (
          unfold append_or_replay in
          λ h. absurd (replay-status (key_for owner_id req) existing rec h))
    ]

handle_mint-Created :
    (most : ℤ) (owner_id : Text) (req : Request) (now_ms : ℕ) (s : MemoryStore) (rec : Record)
    → (handle_mint most true (some owner_id) (decoded req) now_ms s).0 ≡ record_response 201 rec
    → Created owner_id req rec (handle_mint most true (some owner_id) (decoded req) now_ms s).1
unfolding handle_mint mint_owned mint_decoded mint_for
handle_mint-Created most owner_id req now_ms s rec = elim (Bool-cases (ltb_ℤ most req.tier_index)) [
  | inl refused ↦ rw refused (λ h. absurd (omega (arith, ap (λ r. r.status) h)))
  | inr offered ↦ rw offered (append-Created owner_id req now_ms s rec)
]

same_int_refl : (a : ℤ) → same_int a a ≡ true
unfolding same_int
same_int_refl a = ground arith

replay-same :
    (key : MintKey) (rec : Record)
    → rec.tier_index ≡ key.tier_index
    → mint_response (replay key rec) ≡ record_response 200 rec
unfolding replay mint_response
replay-same key rec h = rw (h, same_int_refl key.tier_index) refl

append-replays :
    (owner_id : Text) (req : Request) (now_ms : ℕ) (s : MemoryStore) (rec : Record)
    → Created owner_id req rec s
    → (mint_response (append_request owner_id req now_ms s).0 ≡ record_response 200 rec)
      × ((append_request owner_id req now_ms s).1 ≡ s)
unfolding append_request append
append-replays owner_id req now_ms s rec (found, tier) = rw found (
    unfold append_or_replay in
    (replay-same (key_for owner_id req) rec (unfold key_for in tier), refl))

-- A pour that was answered with 201 is minted once: after any calls of anyone, a request of the same
-- owner with the same start and tier, at any time and with any telemetry, is answered with 200 and the
-- record that was minted, and leaves the ledger as it is. The tier is one that the deployment offers,
-- and the limiter lets the request pass.
pub handle_mint_once :
    (most : ℤ) (owner_id : Text) (req : Request) (now_ms : ℕ) (s : MemoryStore) (rec : Record)
    (calls : List MintCall) (retry : Request) (later_ms : ℕ)
    → (handle_mint most true (some owner_id) (decoded req) now_ms s).0 ≡ record_response 201 rec
    → retry.timestamp_ms ≡ req.timestamp_ms
    → retry.tier_index ≡ req.tier_index
    → ltb_ℤ most req.tier_index ≡ false
    → let after =
        serve_all calls (handle_mint most true (some owner_id) (decoded req) now_ms s).1 in
      handle_mint most true (some owner_id) (decoded retry) later_ms after
      ≡ (record_response 200 rec, after)
handle_mint_once most owner_id req now_ms s rec calls retry later_ms h time tier offered =
    let first = (handle_mint most true (some owner_id) (decoded req) now_ms s).1 in
    let after = serve_all calls first in
    let (found, same_tier) = handle_mint-Created most owner_id req now_ms s rec h in
    let still = serve_all-kept (start_of (key_for owner_id req)) rec calls first found in
    let asked : start_of (key_for owner_id retry) ≡ start_of (key_for owner_id req) =
      unfold key_for in λ i. record { owner_id = owner_id; timestamp_ms = time i } in
    let (response, kept) =
      append-replays owner_id retry later_ms after rec
        (ap (λ k. find_start k after.by_start) asked ∙ still, same_tier ∙ sym tier) in
    unfold handle_mint mint_owned mint_decoded mint_for in
    rw (ap (λ t. ltb_ℤ most t) tier ∙ offered) (λ i. (response i, kept i))
