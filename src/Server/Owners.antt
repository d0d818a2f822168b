-- ===== src/Server/Owners.antt =====
-- What an owner reads of the ledger, and what nobody else does.
use moltenpour.Prelude.{
  ℕ, suc, ◌+◌, ◌<◌, ◌≡◌, ◌≢◌, refl, ap, sym, subst, ◌∙◌, arith, List, [], ◌∷◌, length, All, some,
  Bool-cases, inl, inr, if◌then◌else◌,
}
use moltenpour.Text.{Text}
use moltenpour.Api.{text_eq, text_eq_refl, text_eq→eq}
use moltenpour.Server.Pour.{Record, failed, not_found}
use moltenpour.Server.Store.{MemoryStore, find_id, owned, get, collected, list_owned}
use moltenpour.Server.Handlers.{record_response, get_response, handle_get, handle_list, all_records}
use moltenpour.Server.Ledger.{NumberedFrom}
use moltenpour.Server.Register.{LedgerReachable, LedgerReachable-IsLedger}

-- A record is read by its owner, and for anyone else it is as if there were none.
abbrev pub IsPrivate : MemoryStore → Record → Type 0
IsPrivate s rec =
    (handle_get (some rec.owner_id) rec.id s ≡ record_response 200 rec)
    × ((other : Text)
        → other ≢ rec.owner_id
        → handle_get (some other) rec.id s ≡ get_response (failed not_found))

found-IsPrivate :
    (s : MemoryStore) (rec : Record) → find_id rec.id s.by_id ≡ some rec → IsPrivate s rec
unfolding handle_get get owned
found-IsPrivate s rec found = (
  rw (found, text_eq_refl rec.owner_id) (unfold get_response in refl),
  λ other apart. elim (Bool-cases (text_eq rec.owner_id other)) [
    | inl same ↦ absurd (apart (sym (text_eq→eq rec.owner_id other same)))
    | inr differ ↦ rw (found, differ) refl
  ],
)

-- On every ledger that the server can come to, each record is answered to its owner, and to anyone else
-- the answer is the 404 of a pour that does not exist.
pub LedgerReachable-IsPrivate :
    (s : MemoryStore) → LedgerReachable s → All (λ rec. IsPrivate s rec) s.records
LedgerReachable-IsPrivate s r = private s.records (LedgerReachable-IsLedger s r).by_id
  where
    private :
        (recs : List Record)
        → All (λ rec. find_id rec.id s.by_id ≡ some rec) recs
        → All (λ rec. IsPrivate s rec) recs
    private [] h = tt
    private (rec ∷ recs) (found, h) = (found-IsPrivate s rec found, private recs h)

-- Positions that count down from below k.
abbrev pub NewestBelow : ℕ → List Record → Type 0
NewestBelow k [] = Unit
NewestBelow k (rec ∷ recs) = (rec.ledger_position < k) × NewestBelow rec.ledger_position recs

abbrev pub count_owned : Text → List Record → ℕ
count_owned owner_id [] = 0
count_owned owner_id (rec ∷ recs) =
    let rest = count_owned owner_id recs in if text_eq rec.owner_id owner_id then suc rest else rest

-- A listing: newest first, each record one that its owner can read.
pub record Listing (owner_id : Text) (s : MemoryStore) (most k : ℕ) (out : List Record)
    : Type 0 where
  pub newest : NewestBelow k out
  pub readable : All (λ rec. handle_get (some owner_id) rec.id s ≡ record_response 200 rec) out
  pub complete : length out ≡ most

NewestBelow-suc : (k : ℕ) (out : List Record) → NewestBelow k out → NewestBelow (suc k) out
NewestBelow-suc k [] h = tt
NewestBelow-suc k (rec ∷ out) (p, h) = (omega (arith, p), h)

collected-Listing :
    (owner_id : Text) (s : MemoryStore) (recs out : List Record) (n k : ℕ)
    → NumberedFrom k recs
    → All (λ rec. IsPrivate s rec) recs
    → Listing owner_id s n k out
    → Listing owner_id s
        (n + count_owned owner_id recs)
        (k + length recs)
        (collected owner_id recs out)
unfolding collected
collected-Listing owner_id s [] out n k numbered private h = record {
  newest = subst (λ (j : ℕ). NewestBelow j out) (omega arith) h.newest;
  readable = h.readable;
  complete = h.complete ∙ omega arith;
}
collected-Listing owner_id s (rec ∷ recs) out n k (e, numbered) ((mine, others), private) h =
    elim (Bool-cases (text_eq rec.owner_id owner_id)) [
      | inl owned ↦ rw owned (
          shifted (suc n) (rec ∷ out) (omega arith) (
            collected-Listing owner_id s recs (rec ∷ out) (suc n) (suc k) numbered private (record {
              newest = (omega (arith, e), subst (λ (j : ℕ). NewestBelow j out) (sym e) h.newest);
              readable = (
                subst (λ o. handle_get (some o) rec.id s ≡ record_response 200 rec)
                    (text_eq→eq rec.owner_id owner_id owned) mine,
                h.readable,
              );
              complete = ap suc h.complete;
            })))
      | inr foreign ↦ rw foreign (
          shifted n out refl (
            collected-Listing owner_id s recs out n (suc k) numbered private (record {
              newest = NewestBelow-suc k out h.newest;
              readable = h.readable;
              complete = h.complete;
            })))
    ]
  where
    shifted :
        {total : ℕ} (m : ℕ) (acc : List Record)
        → m + count_owned owner_id recs ≡ total
        → Listing owner_id s
            (m + count_owned owner_id recs)
            (suc k + length recs)
            (collected owner_id recs acc)
        → Listing owner_id s total (k + suc (length recs)) (collected owner_id recs acc)
    shifted m acc same l = record {
      newest =
          subst (λ (j : ℕ). NewestBelow j (collected owner_id recs acc)) (omega arith) l.newest;
      readable = l.readable;
      complete = l.complete ∙ same;
    }

-- On every ledger that the server can come to, an owner is listed their pours newest first, all of them
-- and each one that they can read.
pub handle_list-Listing :
    (s : MemoryStore) (owner_id : Text)
    → LedgerReachable s
    → (handle_list (some owner_id) s
        ≡ record { status = 200; body = all_records (list_owned owner_id s) })
      × Listing owner_id s
          (count_owned owner_id s.records)
          (1 + length s.records)
          (list_owned owner_id s)
unfolding handle_list list_owned
handle_list-Listing s owner_id r = (
  refl,
  subst (λ (n : ℕ). Listing owner_id s n (1 + length s.records) (collected owner_id s.records []))
      (omega arith)
      (collected-Listing owner_id s s.records [] 0 1 (LedgerReachable-IsLedger s r).numbered
        (LedgerReachable-IsPrivate s r) (record { newest = tt; readable = tt; complete = refl })),
)
