-- ===== src/Server/Ledger.antt =====
-- What holds of the ledger in memory, whatever was asked of it.
use moltenpour.Prelude.{
  ℕ, suc, ◌+◌, ◌≤◌, ◌<◌, ◌≡◌, ◌≢◌, refl, ap, sym, ◌∙◌, arith, List, [], ◌∷◌, ◌++◌, length, All,
  none, some, Bool, true, false, ◌&&◌, Bool-cases, inl, inr, ℤ, eq_of_parts,
}
use moltenpour.Text.{Text}
use moltenpour.Text.Decimal.{read}
use moltenpour.Api.{text_eq, text_eq_refl, text_eq→eq}
use moltenpour.Server.Pour.{Record, returned}
use moltenpour.Server.Store.{
  MemoryStore, StartKey, same_int, same_start, find_start, find_id, recorded,
}

abbrev pub start_of_record : Record → StartKey
start_of_record rec = record { owner_id = rec.owner_id; timestamp_ms = rec.timestamp_ms }

-- Positions that count up from k.
abbrev pub NumberedFrom : ℕ → List Record → Type 0
NumberedFrom k [] = Unit
NumberedFrom k (rec ∷ recs) = (rec.ledger_position ≡ k) × NumberedFrom (suc k) recs

-- The position that an id ends in.
abbrev pub id_position : Text → ℕ
id_position (_ ∷ _ ∷ _ ∷ _ ∷ _ ∷ _ ∷ _ ∷ _ ∷ _ ∷ digits) = read digits
id_position _ = 0

abbrev pub IsNamed : Record → Type 0
IsNamed rec = id_position rec.id ≡ rec.ledger_position

abbrev pub IsKeyed : StartKey × Record → Type 0
IsKeyed (key, rec) = key ≡ start_of_record rec

pub record IsLedger (s : MemoryStore) : Type 0 where
  pub numbered : NumberedFrom 1 s.records
  pub named : All IsNamed s.records
  pub by_id : All (λ rec. find_id rec.id s.by_id ≡ some rec) s.records
  pub by_start : All (λ rec. find_start (start_of_record rec) s.by_start ≡ some rec) s.records
  pub keyed : All IsKeyed s.by_start

All-snoc {ℓ κ} :
    {A : Type ℓ} (P : A → Type κ) (xs : List A) (x : A) → All P xs → P x → All P (xs ++ x ∷ [])
All-snoc P [] x h p = (p, tt)
All-snoc P (y ∷ xs) x (q, h) p = (q, All-snoc P xs x h p)

NumberedFrom-snoc :
    (k : ℕ) (recs : List Record) (rec : Record)
    → NumberedFrom k recs
    → rec.ledger_position ≡ k + length recs
    → NumberedFrom k (recs ++ rec ∷ [])
NumberedFrom-snoc k [] rec h e = (e ∙ omega arith, tt)
NumberedFrom-snoc k (r ∷ recs) rec (p, h) e =
    (p, NumberedFrom-snoc (suc k) recs rec h (e ∙ omega arith))

NumberedFrom-below :
    (k : ℕ) (recs : List Record)
    → NumberedFrom k recs
    → All (λ rec. rec.ledger_position < k + length recs) recs
NumberedFrom-below k [] h = tt
NumberedFrom-below k (r ∷ recs) (p, h) =
    (omega (arith, p), weaker recs (NumberedFrom-below (suc k) recs h))
  where
    weaker :
        (rs : List Record)
        → All (λ rec. rec.ledger_position < suc k + length recs) rs
        → All (λ rec. rec.ledger_position < k + suc (length recs)) rs
    weaker [] h = tt
    weaker (r ∷ rs) (p, h) = (omega (arith, p), weaker rs h)

same_int→eq : (a b : ℤ) → same_int a b ≡ true → a ≡ b
unfolding same_int
same_int→eq a b h = eq_of_parts a b (ground arith)

pub same_start→eq : (a b : StartKey) → same_start a b ≡ true → a ≡ b
unfolding same_start
same_start→eq a b h =
    let (owner, time) =
      both (text_eq a.owner_id b.owner_id) (same_int a.timestamp_ms b.timestamp_ms) h in
    λ i. record {
      owner_id = text_eq→eq a.owner_id b.owner_id owner i;
      timestamp_ms = same_int→eq a.timestamp_ms b.timestamp_ms time i;
    }
  where
    both : (p q : Bool) → (p && q) ≡ true → (p ≡ true) × (q ≡ true)
    both true q h = (refl, h)
    both false q h = cc

pub same_start_refl : (a : StartKey) → same_start a a ≡ true
unfolding same_start same_int
same_start_refl a = rw (text_eq_refl a.owner_id) (ground arith)

-- An entry of another key is passed over.
pub find_start-older :
    (key new : StartKey) (rec other : Record) (entries : List (StartKey × Record))
    → find_start key entries ≡ some rec
    → find_start new entries ≡ none
    → find_start key ((new, other) ∷ entries) ≡ some rec
unfolding find_start
find_start-older key new rec other entries found missing = elim (Bool-cases (same_start key new)) [
  | inl same ↦
      absurd
        (clash (sym found ∙ ap (λ k. find_start k entries) (same_start→eq key new same) ∙ missing))
  | inr apart ↦ rw apart found
]
  where
    clash : some rec ≢ none
    clash e = cc

find_id-older :
    (rec new : Record) (entries : List (Text × Record))
    → IsNamed rec
    → IsNamed new
    → rec.ledger_position ≢ new.ledger_position
    → find_id rec.id entries ≡ some rec
    → find_id rec.id ((new.id, new) ∷ entries) ≡ some rec
unfolding find_id
find_id-older rec new entries named new_named apart found =
    elim (Bool-cases (text_eq rec.id new.id)) [
      | inl same ↦
          absurd (apart (sym named ∙ ap id_position (text_eq→eq rec.id new.id same) ∙ new_named))
      | inr other ↦ rw other found
    ]

-- A record that the ledger can take under a start.
pub record Fits (s : MemoryStore) (start : StartKey) (rec : Record) : Type 0 where
  pub missing : find_start start s.by_start ≡ none
  pub position : rec.ledger_position ≡ length s.records + 1
  pub named : IsNamed rec
  pub key : start ≡ start_of_record rec

ids_older :
    (rs : List Record) (n : ℕ) (new : Record) (entries : List (Text × Record))
    → All (λ r. r.ledger_position < n) rs
    → All IsNamed rs
    → n ≤ new.ledger_position
    → IsNamed new
    → All (λ r. find_id r.id entries ≡ some r) rs
    → All (λ r. find_id r.id ((new.id, new) ∷ entries) ≡ some r) rs
ids_older [] n new entries below named le new_named found = tt
ids_older (r ∷ rs) n new entries (b, below) (m, named) le new_named (f, found) = (
  find_id-older r new entries m new_named (λ same. omega (arith, b, le, same)) f,
  ids_older rs n new entries below named le new_named found,
)

starts_older :
    (rs : List Record) (start : StartKey) (new : Record) (entries : List (StartKey × Record))
    → find_start start entries ≡ none
    → All (λ r. find_start (start_of_record r) entries ≡ some r) rs
    → All (λ r. find_start (start_of_record r) ((start, new) ∷ entries) ≡ some r) rs
starts_older [] start new entries missing found = tt
starts_older (r ∷ rs) start new entries missing (f, found) = (
  find_start-older (start_of_record r) start r new entries f missing,
  starts_older rs start new entries missing found,
)

pub recorded-IsLedger :
    (s : MemoryStore) (start : StartKey) (rec : Record)
    → IsLedger s
    → Fits s start rec
    → IsLedger (recorded start (returned rec) s).1
unfolding recorded
recorded-IsLedger s start rec h fits =
    let here : find_id rec.id ((rec.id, rec) ∷ s.by_id) ≡ some rec =
      unfold find_id in rw (text_eq_refl rec.id) refl in
    let begun : find_start (start_of_record rec) ((start, rec) ∷ s.by_start) ≡ some rec =
      unfold find_start in rw (fits.key, same_start_refl (start_of_record rec)) refl in
    record {
      numbered = NumberedFrom-snoc 1 s.records rec h.numbered (fits.position ∙ omega arith);
      named = All-snoc IsNamed s.records rec h.named fits.named;
      by_id =
          All-snoc (λ r. find_id r.id ((rec.id, rec) ∷ s.by_id) ≡ some r) s.records rec
            (ids_older s.records (1 + length s.records) rec s.by_id
              (NumberedFrom-below 1 s.records h.numbered) h.named (omega (arith, fits.position))
              fits.named h.by_id)
            here;
      by_start =
          All-snoc (λ r. find_start (start_of_record r) ((start, rec) ∷ s.by_start) ≡ some r)
            s.records rec (starts_older s.records start rec s.by_start fits.missing h.by_start)
            begun;
      keyed = (fits.key, h.keyed);
    }
