-- ===== src/Api/Passes.antt =====
-- A pour record passes every test of the guard.
use moltenpour.Prelude.{List, [], ◌∷◌, none, some, true, ◌≡◌, refl}
use moltenpour.Number.{Number}
use moltenpour.Text.{Text, codes}
use moltenpour.Telemetry.{Telemetry}
use moltenpour.Rarity.{Rarity}
use moltenpour.Record.{PourRecord}
use moltenpour.Api.TextEq.{text_eq}
use moltenpour.Api.Json.{Fields, arr, obj, property}
use moltenpour.Api.Guard.{
  rarity_name, rarities, is_string, is_finite_number, is_named, is_rarity, all_strings,
  is_string_array, text_fields, number_fields, telemetry_fields, bad_telemetry, bad_field,
}
use moltenpour.Api.Shapes.{strings, HasText, HasNumber, HasTelemetry, Represents, AllPass→first_bad}

-- The guard's tests hold of what `Represents` asks for.
HasText-passes : (x : Fields) (f s : Text) → HasText x f s → is_string (property f x) ≡ true
unfolding is_string
HasText-passes x f s e = rw e

HasNumber-passes :
    (x : Fields) (f : Text) (n : Number) → HasNumber x f n → is_finite_number (property f x) ≡ true
unfolding is_finite_number
HasNumber-passes x f n (e, finite) = rw e finite

rarity_name-passes :
    (x : Fields) (f : Text) (r : Rarity)
    → HasText x f (rarity_name r)
    → is_rarity (property f x) ≡ true
unfolding is_rarity is_named rarities text_eq
rarity_name-passes x f Rarity.common e = rw e
rarity_name-passes x f Rarity.uncommon e = rw e
rarity_name-passes x f Rarity.rare e = rw e
rarity_name-passes x f Rarity.singular e = rw e

strings-passes : (ss : List Text) → all_strings (strings ss) ≡ true
unfolding all_strings is_string
strings-passes [] = refl
strings-passes (s ∷ ss) = strings-passes ss

violations-passes :
    (x : Fields) (f : Text) (ss : List Text)
    → property f x ≡ some (arr (strings ss))
    → is_string_array (property f x) ≡ true
unfolding is_string_array
violations-passes x f ss e = rw e (strings-passes ss)

telemetry-passes :
    (x : Fields) (t : Telemetry)
    → HasTelemetry x t
    → bad_telemetry (property (codes "telemetry") x) ≡ none
unfolding bad_telemetry
telemetry-passes x t (fields, e, droplets, velocity, tilt, hold) =
    let passed = AllPass→first_bad is_finite_number telemetry_fields fields (
      HasNumber-passes fields _ _ droplets,
      (
        HasNumber-passes fields _ _ velocity,
        (HasNumber-passes fields _ _ tilt, (HasNumber-passes fields _ _ hold, tt)),
      ),
    ) in
    rw (e, passed)

pub Represents-passes : (x : Fields) (r : PourRecord) → Represents x r → bad_field (obj x) ≡ none
unfolding bad_field
Represents-passes x r h =
    let texts = AllPass→first_bad is_string text_fields x (
      HasText-passes x _ _ h.id,
      (
        HasText-passes x _ _ h.serial,
        (HasText-passes x _ _ h.batch, (HasText-passes x _ _ h.issued, tt)),
      ),
    ) in
    let numbers = AllPass→first_bad is_finite_number number_fields x (
      HasNumber-passes x _ _ h.ledger_position,
      (
        HasNumber-passes x _ _ h.tier_index,
        (
          HasNumber-passes x _ _ h.amount_cents,
          (
            HasNumber-passes x _ _ h.timestamp_ms,
            (
              HasNumber-passes x _ _ h.seed,
              (HasNumber-passes x _ _ h.rarity_score, (HasNumber-passes x _ _ h.mass_grams, tt)),
            ),
          ),
        ),
      ),
    ) in
    let rarity =
      AllPass→first_bad is_rarity (codes "rarity" ∷ []) x
        (rarity_name-passes x _ r.rarity h.rarity, tt) in
    let violations =
      AllPass→first_bad is_string_array (codes "violations" ∷ []) x
        (violations-passes x _ r.violations h.violations, tt) in
    rw (texts, numbers, rarity, violations) (telemetry-passes x r.telemetry h.telemetry)
