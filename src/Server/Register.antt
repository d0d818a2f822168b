-- ===== src/Server/Register.antt =====
-- The ledger in memory under the requests that the server answers.
use moltenpour.Prelude.{
  ℕ, ◌+◌, ◌≡◌, refl, ap, sym, subst, ◌∙◌, [], length, append-nil, Option, none, some, Option-cases,
  Bool, true, false, not, Bool-cases, inl, inr, ℤ, ltb_ℤ,
}
use moltenpour.Text.{Text, show}
use moltenpour.Text.Decimal.{read, read-show}
use moltenpour.Server.Pour.{
  Record, Request, Returned, returned, failed, minted, mint, is_tier, is_timely, hex_digits,
}
use moltenpour.Server.Store.{
  MemoryStore, new_memory_store, start_of, find_start, recorded, append_or_replay, append,
}
use moltenpour.Server.Handlers.{
  Decoded, decoded, malformed, key_for, append_request, mint_for, mint_decoded, mint_owned,
  handle_mint,
}
use moltenpour.Server.Ledger.{IsNamed, IsLedger, Fits, recorded-IsLedger}

-- What is minted has the position, the owner and the start that were asked for.
pub mint_returned :
    (req : Request) (position : ℕ) (owner_id : Text) (now_ms : ℕ) (rec : Record)
    → mint req position owner_id now_ms ≡ returned rec
    → rec ≡ minted req position owner_id now_ms
unfolding mint
mint_returned req position owner_id now_ms rec h =
    elim (Bool-cases (not (is_tier req.tier_index))) [
      | inl bad ↦ cc (rw bad at h)
      | inr tier ↦ elim (Bool-cases (not (is_timely now_ms req.timestamp_ms))) [
        | inl late ↦ cc (rw (tier, late) at h)
        | inr timely ↦ sym (returned-injective _ _ (rw (tier, timely) at h))
      ]
    ]
  where
    returned-injective : (a b : Record) → returned a ≡ returned b → a ≡ b
    returned-injective a b e = cc

minted-IsNamed :
    (req : Request) (position : ℕ) (owner_id : Text) (now_ms : ℕ)
    → IsNamed (minted req position owner_id now_ms)
unfolding minted hex_digits
minted-IsNamed req position owner_id now_ms =
    ap read (sym (append-nil (show position))) ∙ read-show position []

minted-Fits :
    (s : MemoryStore) (owner_id : Text) (req : Request) (now_ms : ℕ) (rec : Record)
    → find_start (start_of (key_for owner_id req)) s.by_start ≡ none
    → mint req (length s.records + 1) owner_id now_ms ≡ returned rec
    → Fits s (start_of (key_for owner_id req)) rec
unfolding key_for
minted-Fits s owner_id req now_ms rec missing h =
    let e = mint_returned req (length s.records + 1) owner_id now_ms rec h in
    subst (λ r. Fits s (start_of (key_for owner_id req)) r) (sym e)
      (record {
        missing = missing;
        position = unfold minted in refl;
        named = minted-IsNamed req (length s.records + 1) owner_id now_ms;
        key = unfold minted in refl;
      })

append-IsLedger :
    (owner_id : Text) (req : Request) (now_ms : ℕ) (s : MemoryStore)
    → IsLedger s
    → IsLedger (append_request owner_id req now_ms s).1
unfolding append_request append
append-IsLedger owner_id req now_ms s h =
    elim (Option-cases (find_start (start_of (key_for owner_id req)) s.by_start)) [
      | inl missing ↦ rw missing (
          unfold append_or_replay in
          taken missing (mint req (length s.records + 1) owner_id now_ms) refl)
      | inr (existing, found) ↦ rw found (unfold append_or_replay in h)
    ]
  where
    taken :
        find_start (start_of (key_for owner_id req)) s.by_start ≡ none
        → (r : Returned Record) → mint req (length s.records + 1) owner_id now_ms ≡ r
        → IsLedger (recorded (start_of (key_for owner_id req)) r s).1
    taken missing (failed e) h2 = unfold recorded in h
    taken missing (returned rec) h2 =
        recorded-IsLedger s (start_of (key_for owner_id req)) rec h
          (minted-Fits s owner_id req now_ms rec missing h2)

handle_mint-IsLedger :
    (max_tier_index : ℤ) (allowed : Bool) (owner : Option Text) (body : Decoded) (now_ms : ℕ)
    (s : MemoryStore)
    → IsLedger s
    → IsLedger (handle_mint max_tier_index allowed owner body now_ms s).1
unfolding handle_mint mint_owned mint_decoded mint_for
handle_mint-IsLedger most false owner body now_ms s h = h
handle_mint-IsLedger most true none body now_ms s h = h
handle_mint-IsLedger most true (some owner_id) (malformed complaint) now_ms s h = h
handle_mint-IsLedger most true (some owner_id) (decoded req) now_ms s h =
    elim (Bool-cases (ltb_ℤ most req.tier_index)) [
      | inl refused ↦ rw refused h
      | inr offered ↦ rw offered (append-IsLedger owner_id req now_ms s h)
    ]

-- The ledgers that requests to mint lead to, from an empty one.
pub data LedgerReachable : MemoryStore → Type 0 where
  empty : LedgerReachable new_memory_store
  asked :
      {s : MemoryStore} (max_tier_index : ℤ) (allowed : Bool) (owner : Option Text) (body : Decoded)
      (now_ms : ℕ)
      → LedgerReachable s
      → LedgerReachable (handle_mint max_tier_index allowed owner body now_ms s).1

-- Whatever is asked of the server, by anyone and at any time, the register is continuous: the records
-- have the positions 1, 2, 3 and so on in the order in which they were minted. Each record is found by
-- its id, and each is the one that its owner and its start time lead to.
pub LedgerReachable-IsLedger : (s : MemoryStore) → LedgerReachable s → IsLedger s
LedgerReachable-IsLedger _ LedgerReachable.empty =
    unfold new_memory_store in
    record { numbered = tt; named = tt; by_id = tt; by_start = tt; keyed = tt }
LedgerReachable-IsLedger _ (LedgerReachable.asked {s = s} most allowed owner body now_ms r) =
    handle_mint-IsLedger most allowed owner body now_ms s (LedgerReachable-IsLedger s r)
