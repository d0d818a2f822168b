-- ===== src/Api/Shapes.antt =====
-- What the tests of the guard mean, and what it is for an object to hold a pour record.
use moltenpour.Prelude.{
  List, [], ◌∷◌, Option, none, some, Bool, true, ◌≡◌, refl, arith, sym, ap, Bool-cases, inl, inr,
  All,
}
use moltenpour.Number.{Number, is_finite}
use moltenpour.Text.{Text, codes}
use moltenpour.Telemetry.{Telemetry}
use moltenpour.Rarity.{Rarity}
use moltenpour.Record.{PourRecord}
use moltenpour.Api.TextEq.{text_eq, text_eq→eq}
use moltenpour.Api.Json.{Json, Items, Fields, null, bool, num, str, arr, obj, nil, cons, property}
use moltenpour.Api.Guard.{
  rarity_name, rarities, is_string, is_finite_number, is_named, is_rarity, all_strings,
  is_string_array, first_bad, or_next,
}

abbrev pub strings : List Text → Items
strings [] = nil
strings (s ∷ ss) = cons (str s) (strings ss)

-- An object has this text under this name, or this number, which is finite.
abbrev pub HasText : Fields → Text → Text → Type 0
HasText x f s = property f x ≡ some (str s)

abbrev pub HasNumber : Fields → Text → Number → Type 0
HasNumber x f n = (property f x ≡ some (num n)) × (is_finite n ≡ true)

abbrev pub HasTelemetry : Fields → Telemetry → Type 0
HasTelemetry x t =
    (fields : Fields) × (property (codes "telemetry") x ≡ some (obj fields))
    × HasNumber fields (codes "dropletsLanded") t.droplets_landed
    × HasNumber fields (codes "peakVelocity") t.peak_velocity
    × HasNumber fields (codes "tiltEnergy") t.tilt_energy
    × HasNumber fields (codes "holdMs") t.hold_ms

-- The fields of an object spell a pour record, each under its name and with its type.
pub record Represents (x : Fields) (r : PourRecord) : Type 0 where
  pub id : HasText x (codes "id") r.id
  pub serial : HasText x (codes "serial") r.serial
  pub batch : HasText x (codes "batch") r.batch
  pub issued : HasText x (codes "issued") r.issued
  pub ledger_position : HasNumber x (codes "ledgerPosition") r.ledger_position
  pub tier_index : HasNumber x (codes "tierIndex") r.tier_index
  pub amount_cents : HasNumber x (codes "amountCents") r.amount_cents
  pub timestamp_ms : HasNumber x (codes "timestampMs") r.timestamp_ms
  pub seed : HasNumber x (codes "seed") r.seed
  pub rarity_score : HasNumber x (codes "rarityScore") r.rarity_score
  pub mass_grams : HasNumber x (codes "massGrams") r.mass_grams
  pub rarity : HasText x (codes "rarity") (rarity_name r.rarity)
  pub violations : property (codes "violations") x ≡ some (arr (strings r.violations))
  pub telemetry : HasTelemetry x r.telemetry

-- What each test of the guard means.
pub is_string→text : (v : Option Json) → is_string v ≡ true → (s : Text) × (v ≡ some (str s))
unfolding is_string
is_string→text (some (str s)) h = (s, refl)
is_string→text none h = cc
is_string→text (some null) h = cc
is_string→text (some (bool b)) h = cc
is_string→text (some (num n)) h = cc
is_string→text (some (arr vs)) h = cc
is_string→text (some (obj x)) h = cc

pub is_finite_number→number :
    (v : Option Json)
    → is_finite_number v ≡ true
    → (n : Number) × ((v ≡ some (num n)) × (is_finite n ≡ true))
unfolding is_finite_number
is_finite_number→number (some (num n)) h = (n, (refl, h))
is_finite_number→number none h = cc
is_finite_number→number (some null) h = cc
is_finite_number→number (some (bool b)) h = cc
is_finite_number→number (some (str s)) h = cc
is_finite_number→number (some (arr vs)) h = cc
is_finite_number→number (some (obj x)) h = cc

pub is_named→rarity :
    (s : Text) (rs : List Rarity) → is_named s rs ≡ true → (r : Rarity) × (s ≡ rarity_name r)
unfolding is_named
is_named→rarity s [] h = cc
is_named→rarity s (r ∷ rs) h = elim (Bool-cases (text_eq (rarity_name r) s)) [
  | inl same ↦ (r, sym (text_eq→eq (rarity_name r) s same))
  | inr other ↦ is_named→rarity s rs (ground arith)
]

pub is_rarity→name :
    (v : Option Json) → is_rarity v ≡ true → (r : Rarity) × (v ≡ some (str (rarity_name r)))
unfolding is_rarity
is_rarity→name (some (str s)) h =
    let (r, e) = is_named→rarity s rarities h in (r, ap (λ t. some (str t)) e)
is_rarity→name none h = cc
is_rarity→name (some null) h = cc
is_rarity→name (some (bool b)) h = cc
is_rarity→name (some (num n)) h = cc
is_rarity→name (some (arr vs)) h = cc
is_rarity→name (some (obj x)) h = cc

all_strings→strings : (vs : Items) → all_strings vs ≡ true → (ss : List Text) × (vs ≡ strings ss)
unfolding all_strings
all_strings→strings nil h = ([], refl)
all_strings→strings (cons v vs) h =
    let (s, e) = is_string→text (some v) (ground arith) in
    let (ss, es) = all_strings→strings vs (ground arith) in (s ∷ ss, λ i. cons (payload e i) (es i))
  where
    payload : {v w : Json} → some v ≡ some w → v ≡ w
    payload e = cc

pub is_string_array→strings :
    (v : Option Json) → is_string_array v ≡ true → (ss : List Text) × (v ≡ some (arr (strings ss)))
unfolding is_string_array
is_string_array→strings (some (arr vs)) h =
    let (ss, e) = all_strings→strings vs h in (ss, ap (λ t. some (arr t)) e)
is_string_array→strings none h = cc
is_string_array→strings (some null) h = cc
is_string_array→strings (some (bool b)) h = cc
is_string_array→strings (some (num n)) h = cc
is_string_array→strings (some (str s)) h = cc
is_string_array→strings (some (obj x)) h = cc

-- A list of names passes when every property passes.
abbrev pub AllPass : (Option Json → Bool) → List Text → Fields → Type 0
AllPass test fs x = All (λ f. test (property f x) ≡ true) fs

pub first_bad→AllPass :
    (test : Option Json → Bool) (fs : List Text) (x : Fields)
    → first_bad test fs x ≡ none
    → AllPass test fs x
unfolding first_bad
first_bad→AllPass test [] x h = tt
first_bad→AllPass test (f ∷ fs) x h = elim (Bool-cases (test (property f x))) [
  | inl good ↦ (good, first_bad→AllPass test fs x (rw good at h))
  | inr bad ↦ cc
]

pub AllPass→first_bad :
    (test : Option Json → Bool) (fs : List Text) (x : Fields)
    → AllPass test fs x
    → first_bad test fs x ≡ none
unfolding first_bad
AllPass→first_bad test [] x h = refl
AllPass→first_bad test (f ∷ fs) x (good, rest) = rw good (AllPass→first_bad test fs x rest)

pub or_next-none : (a b : Option Text) → or_next a b ≡ none → (a ≡ none) × (b ≡ none)
or_next-none none b h = (refl, h)
or_next-none (some a) b h = cc
