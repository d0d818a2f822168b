-- ===== src/Server/Store.antt =====
-- api/pour/store.go: the ledger that is held in memory. Its two maps are lists of pairs whose first
-- entry of a key counts; a lock makes each operation one step.
use moltenpour.Prelude.{
  ℕ, ◌+◌, List, [], ◌∷◌, ◌++◌, length, Option, none, some, Bool, true, false, ◌&&◌, ◌||◌, not,
  if◌then◌else◌, ℤ, ltb_ℤ,
}
use moltenpour.Text.{Text}
use moltenpour.Api.{text_eq}
use moltenpour.Server.Pour.{Record, Returned, returned, failed, conflict, not_found}

pub record MintKey : Type 0 where
  pub owner_id : Text
  pub timestamp_ms : ℤ
  pub tier_index : ℤ

-- `startKey`.
pub record StartKey : Type 0 where
  pub owner_id : Text
  pub timestamp_ms : ℤ

pub record MemoryStore : Type 0 where
  pub records : List Record
  pub by_id : List (Text × Record)
  pub by_start : List (StartKey × Record)

unfoldable pub new_memory_store : MemoryStore
new_memory_store = record { records = []; by_id = []; by_start = [] }

-- `a == b` of ints.
unfoldable pub same_int : ℤ → ℤ → Bool
same_int a b = not (ltb_ℤ a b || ltb_ℤ b a)

unfoldable pub same_start : StartKey → StartKey → Bool
same_start a b = text_eq a.owner_id b.owner_id && same_int a.timestamp_ms b.timestamp_ms

unfoldable pub find_start : StartKey → List (StartKey × Record) → Option Record
find_start key [] = none
find_start key ((k, rec) ∷ entries) = if same_start key k then some rec else find_start key entries

unfoldable pub find_id : Text → List (Text × Record) → Option Record
find_id id [] = none
find_id id ((k, rec) ∷ entries) = if text_eq id k then some rec else find_id id entries

abbrev pub start_of : MintKey → StartKey
start_of key = record { owner_id = key.owner_id; timestamp_ms = key.timestamp_ms }

-- A pour that is on the ledger: the record, and that it was replayed, or a conflict of tiers.
unfoldable pub replay : MintKey → Record → Returned (Record × Bool)
replay key existing =
    if same_int existing.tier_index key.tier_index
    then returned (existing, true)
    else failed conflict

-- A pour that is not: the ledger takes what is minted.
unfoldable pub recorded :
    StartKey → Returned Record → MemoryStore → Returned (Record × Bool) × MemoryStore
recorded start (failed e) s = (failed e, s)
recorded start (returned rec) s = (
  returned (rec, false),
  record {
    records = s.records ++ rec ∷ [];
    by_id = (rec.id, rec) ∷ s.by_id;
    by_start = (start, rec) ∷ s.by_start;
  },
)

unfoldable pub append_or_replay :
    Option Record
    → MintKey
    → (ℕ → Returned Record)
    → MemoryStore
    → Returned (Record × Bool) × MemoryStore
append_or_replay (some existing) key mint s = (replay key existing, s)
append_or_replay none key mint s = recorded (start_of key) (mint (length s.records + 1)) s

-- `Append`.
unfoldable pub append :
    MintKey → (ℕ → Returned Record) → MemoryStore → Returned (Record × Bool) × MemoryStore
append key mint s = append_or_replay (find_start (start_of key) s.by_start) key mint s

-- A record, where its owner asks for it.
unfoldable pub owned : Text → Option Record → Returned Record
owned owner_id none = failed not_found
owned owner_id (some rec) = if text_eq rec.owner_id owner_id then returned rec else failed not_found

-- `Get`.
unfoldable pub get : Text → Text → MemoryStore → Returned Record
get id owner_id s = owned owner_id (find_id id s.by_id)

-- The loop of `List`, from the last record down: what is found so far goes in front.
unfoldable pub collected : Text → List Record → List Record → List Record
collected owner_id [] out = out
collected owner_id (rec ∷ records) out =
    collected owner_id records (if text_eq rec.owner_id owner_id then rec ∷ out else out)

-- `List`.
unfoldable pub list_owned : Text → MemoryStore → List Record
list_owned owner_id s = collected owner_id s.records []
