-- ===== src/Server/Pour.antt =====
-- api/pour/pour.go: what the server mints from a request. A time is its milliseconds since 1970.
use moltenpour.Prelude.{
  ℕ, zero, suc, ◌+◌, ◌-◌, ◌*◌, ◌/◌, ◌%◌, ◌^◌, List, [], ◌∷◌, ◌++◌, Bool, ◌||◌, not, if◌then◌else◌,
  leb, ltb, ℤ, pos, negsuc, neg_ℤ, ◌+ℤ◌, ltb_ℤ, get_elem?, none, some,
}
use moltenpour.Number.{Number, of_ℕ, ratio, ◌*ₙ◌, ◌<ₙ◌}
use moltenpour.Text.{Text, codes, show, pad_start}
use moltenpour.Telemetry.{Telemetry}
use moltenpour.Rarity.{Rarity}
use moltenpour.Server.Floats.{float}
use moltenpour.Server.Sigil as Go

-- `ErrValidation`, `ErrConflict` and `ErrNotFound`, and a failure of the store.
pub data LedgerError : Type 0 where
  validation : Text → LedgerError
  conflict : LedgerError
  not_found : LedgerError
  store_failure : LedgerError

-- A value, or an error.
pub data Returned {ℓ} (A : Type ℓ) : Type ℓ where
  returned : A → Returned A
  failed : LedgerError → Returned A

pub record Record : Type 0 where
  pub id : Text
  pub owner_id : Text
  pub ledger_position : ℕ
  pub tier_index : ℤ
  pub amount_cents : ℤ
  pub timestamp_ms : ℤ
  pub telemetry : Telemetry
  pub violations : List Text
  pub seed : ℕ
  pub rarity : Rarity
  pub rarity_score : Number
  pub serial : Text
  pub batch : Text
  pub mass_grams : Number
  pub issued : Text

pub record Request : Type 0 where
  pub tier_index : ℤ
  pub timestamp_ms : ℤ
  pub telemetry : Telemetry

unfoldable pub amount_cents : List ℕ
amount_cents = 0 ∷ 299 ∷ 1299 ∷ 2999 ∷ 5999 ∷ 14900 ∷ []

unfoldable pub mass_per_droplet_g : Number
mass_per_droplet_g = ratio 379 100

-- `maxClockSkew.Milliseconds()`.
unfoldable pub skew_ms : ℤ
skew_ms = pos 300000

-- A hexadecimal digit, with letters from `a` on.
unfoldable pub hex_code : ℕ → ℕ → ℕ
hex_code a d = if ltb d 10 then b'0' + d else a + (d - 10)

-- The last `width` hexadecimal digits of n.
unfoldable pub hex_digits : ℕ → ℕ → ℕ → Text
hex_digits a zero n = []
hex_digits a (suc width) n = hex_digits a width (n / 16) ++ hex_code a (n % 16) ∷ []

-- The civil year, month and day of a day since 1970, counted from the first of March of the year 0.
unfoldable pub year_of_era : ℕ → ℕ
year_of_era doe = (doe - doe / 1460 + doe / 36524 - doe / 146096) / 365

unfoldable pub day_of_year : ℕ → ℕ
day_of_year doe = let yoe = year_of_era doe in doe - (365 * yoe + yoe / 4 - yoe / 100)

unfoldable pub month_of : ℕ → ℕ
month_of mp = if ltb mp 10 then mp + 3 else mp - 9

-- `now.UTC().Format("2006-01-02")`.
unfoldable pub issued_on : ℕ → Text
issued_on now_ms =
    let z = now_ms / 86400000 + 719468 in
    let doe = z % 146097 in
    let doy = day_of_year doe in
    let mp = (5 * doy + 2) / 153 in
    let month = month_of mp in
    let year = year_of_era doe + z / 146097 * 400 + (if leb month 2 then 1 else 0) in
    pad_start 4 b'0' (show year)
    ++ codes "-"
    ++ pad_start 2 b'0' (show month)
    ++ codes "-"
    ++ pad_start 2 b'0' (show (doy - (153 * mp + 2) / 5 + 1))

-- `float64(nowMs - req.TimestampMs)`, at least zero.
unfoldable pub wall_clock_ms : ℕ → ℤ → Number
wall_clock_ms now_ms timestamp_ms =
    let elapsed = float (pos now_ms +ℤ neg_ℤ timestamp_ms) in
    if elapsed <ₙ of_ℕ 0 then of_ℕ 0 else elapsed

-- The price of a tier; zero stands for the panic of an index out of range, which is refused before.
unfoldable pub price_of : ℤ → ℕ
price_of (negsuc n) = 0
price_of (pos n) = elim (get_elem? amount_cents n) [ none ↦ 0 | some cents ↦ cents ]

unfoldable pub is_tier : ℤ → Bool
is_tier tier_index = not (ltb_ℤ tier_index (pos 0) || not (ltb_ℤ tier_index (pos 6)))

unfoldable pub is_timely : ℕ → ℤ → Bool
is_timely now_ms timestamp_ms =
    not (
      ltb_ℤ timestamp_ms (pos now_ms +ℤ neg_ℤ skew_ms)
      || ltb_ℤ (pos now_ms +ℤ skew_ms) timestamp_ms)

-- The seed that is hashed, of the clamped telemetry.
unfoldable pub burn_seed : Request → Telemetry → Go.BurnSeed
burn_seed req telemetry = record {
  tier_index = req.tier_index;
  amount_cents = pos (price_of req.tier_index);
  timestamp_ms = req.timestamp_ms;
  telemetry = telemetry;
}

-- The record of a request that passed both tests.
unfoldable pub minted : Request → ℕ → Text → ℕ → Record
minted req ledger_position owner_id now_ms =
    let clamped =
      Go.clamp_telemetry req.telemetry req.tier_index (wall_clock_ms now_ms req.timestamp_ms) in
    let seed = Go.hash_seed (burn_seed req clamped.telemetry) in
    record {
      id = hex_digits b'a' 8 seed ++ codes "-" ++ show ledger_position;
      owner_id = owner_id;
      ledger_position = ledger_position;
      tier_index = req.tier_index;
      amount_cents = pos (price_of req.tier_index);
      timestamp_ms = req.timestamp_ms;
      telemetry = clamped.telemetry;
      violations = clamped.violations;
      seed = seed;
      rarity = Go.classify clamped.telemetry req.tier_index;
      rarity_score = Go.rarity_score clamped.telemetry req.tier_index;
      serial =
          codes "MP-"
          ++ pad_start 7 b'0' (show ledger_position)
          ++ codes "-"
          ++ hex_digits b'A' 4 (seed % 2 ^ 16);
      batch =
          pad_start 3 b'0' (show (ledger_position % 1000)) ++ codes "-" ++ (b'A' + seed % 26) ∷ [];
      mass_grams = clamped.telemetry.droplets_landed *ₙ mass_per_droplet_g;
      issued = issued_on now_ms;
    }

-- `%d` of an int.
unfoldable pub show_int : ℤ → Text
show_int (pos n) = show n
show_int (negsuc n) = b'-' ∷ show (suc n)

-- `fmt.Errorf` around `ErrValidation`.
unfoldable pub invalid : Text → ℤ → Text → LedgerError
invalid field value complaint = validation (
    codes "invalid pour request: "
    ++ field
    ++ codes " "
    ++ show_int value
    ++ codes " "
    ++ complaint)

unfoldable pub mint : Request → ℕ → Text → ℕ → Returned Record
mint req ledger_position owner_id now_ms =
    if not (is_tier req.tier_index)
    then failed (invalid (codes "tierIndex") req.tier_index (codes "out of range"))
    else if not (is_timely now_ms req.timestamp_ms)
    then failed
        (invalid (codes "timestampMs") req.timestamp_ms (codes "outside the accepted window"))
    else returned (minted req ledger_position owner_id now_ms)
