-- ===== src/Api/Accepts.antt =====
-- Which values the guard lets through: those that hold a whole record, and no others.
use moltenpour.Prelude.{[], ◌∷◌, Option, none, some, ◌≡◌, ◌↔◌, refl, Option-cases, inl, inr}
use moltenpour.Text.{Text, codes}
use moltenpour.Telemetry.{Telemetry}
use moltenpour.Record.{PourRecord}
use moltenpour.Api.Json.{Json, Fields, null, bool, num, str, arr, obj, property}
use moltenpour.Api.Fetch.{returns}
use moltenpour.Api.Guard.{
  is_string, is_finite_number, is_rarity, is_string_array, text_fields, number_fields,
  telemetry_fields, bad_telemetry, in_telemetry, bad_field, assert_pour_record, malformed,
}
use moltenpour.Api.Shapes.{
  HasTelemetry, Represents, is_string→text, is_finite_number→number, is_rarity→name,
  is_string_array→strings, first_bad→AllPass, or_next-none,
}
use moltenpour.Api.Passes.{Represents-passes}

bad_telemetry→HasTelemetry :
    (x : Fields) (v : Option Json)
    → property (codes "telemetry") x ≡ v
    → bad_telemetry v ≡ none
    → (t : Telemetry) × HasTelemetry x t
unfolding bad_telemetry
bad_telemetry→HasTelemetry x (some (obj fields)) e h =
    let (p1, (p2, (p3, (p4, u)))) =
      first_bad→AllPass is_finite_number telemetry_fields fields (none_of _ h) in
    let (droplets, d) = is_finite_number→number _ p1 in
    let (velocity, v) = is_finite_number→number _ p2 in
    let (tilt, w) = is_finite_number→number _ p3 in
    let (hold, z) = is_finite_number→number _ p4 in
    (
      record {
        droplets_landed = droplets;
        peak_velocity = velocity;
        tilt_energy = tilt;
        hold_ms = hold;
      },
      (fields, e, d, v, w, z),
    )
  where
    none_of : (o : Option Text) → in_telemetry o ≡ none → o ≡ none
    none_of none h = refl
    none_of (some f) h = cc
bad_telemetry→HasTelemetry x none e h = cc
bad_telemetry→HasTelemetry x (some null) e h = cc
bad_telemetry→HasTelemetry x (some (bool b)) e h = cc
bad_telemetry→HasTelemetry x (some (num n)) e h = cc
bad_telemetry→HasTelemetry x (some (str s)) e h = cc
bad_telemetry→HasTelemetry x (some (arr vs)) e h = cc

passes-Represents : (x : Fields) → bad_field (obj x) ≡ none → (r : PourRecord) × Represents x r
unfolding bad_field
passes-Represents x h =
    let (texts, h1) = or_next-none _ _ h in
    let (numbers, h2) = or_next-none _ _ h1 in
    let (rarity_ok, h3) = or_next-none _ _ h2 in
    let (violations_ok, telemetry_ok) = or_next-none _ _ h3 in
    let (t1, (t2, (t3, (t4, u)))) = first_bad→AllPass is_string text_fields x texts in
    let (n1, (n2, (n3, (n4, (n5, (n6, (n7, v))))))) =
      first_bad→AllPass is_finite_number number_fields x numbers in
    let (r1, w) = first_bad→AllPass is_rarity (codes "rarity" ∷ []) x rarity_ok in
    let (v1, z) = first_bad→AllPass is_string_array (codes "violations" ∷ []) x violations_ok in
    let (id, id_at) = is_string→text _ t1 in
    let (serial, serial_at) = is_string→text _ t2 in
    let (batch, batch_at) = is_string→text _ t3 in
    let (issued, issued_at) = is_string→text _ t4 in
    let (ledger_position, ledger_position_at) = is_finite_number→number _ n1 in
    let (tier_index, tier_index_at) = is_finite_number→number _ n2 in
    let (amount_cents, amount_cents_at) = is_finite_number→number _ n3 in
    let (timestamp_ms, timestamp_ms_at) = is_finite_number→number _ n4 in
    let (seed, seed_at) = is_finite_number→number _ n5 in
    let (rarity_score, rarity_score_at) = is_finite_number→number _ n6 in
    let (mass_grams, mass_grams_at) = is_finite_number→number _ n7 in
    let (rarity, rarity_at) = is_rarity→name _ r1 in
    let (violations, violations_at) = is_string_array→strings _ v1 in
    let (telemetry, telemetry_at) = bad_telemetry→HasTelemetry x _ refl telemetry_ok in
    (
      record {
        id = id;
        serial = serial;
        batch = batch;
        issued = issued;
        ledger_position = ledger_position;
        tier_index = tier_index;
        amount_cents = amount_cents;
        timestamp_ms = timestamp_ms;
        seed = seed;
        rarity_score = rarity_score;
        mass_grams = mass_grams;
        rarity = rarity;
        violations = violations;
        telemetry = telemetry;
      },
      record {
        id = id_at;
        serial = serial_at;
        batch = batch_at;
        issued = issued_at;
        ledger_position = ledger_position_at;
        tier_index = tier_index_at;
        amount_cents = amount_cents_at;
        timestamp_ms = timestamp_ms_at;
        seed = seed_at;
        rarity_score = rarity_score_at;
        mass_grams = mass_grams_at;
        rarity = rarity_at;
        violations = violations_at;
        telemetry = telemetry_at;
      },
    )

-- A value is a record of the ledger: an object that spells one.
abbrev pub IsPourRecord : Json → Type 0
IsPourRecord x = (fields : Fields) × (x ≡ obj fields) × ((r : PourRecord) × Represents fields r)

assert-none : (x : Json) → assert_pour_record x ≡ returns tt → bad_field x ≡ none
unfolding assert_pour_record malformed
assert-none x h = elim (Option-cases (bad_field x)) [ inl good ↦ good | inr (f, bad) ↦ cc ]

IsPourRecord-of_passes : (x : Json) → bad_field x ≡ none → IsPourRecord x
unfolding bad_field
IsPourRecord-of_passes (obj fields) h = (fields, refl, passes-Represents fields h)
IsPourRecord-of_passes null h = cc
IsPourRecord-of_passes (bool b) h = cc
IsPourRecord-of_passes (num n) h = cc
IsPourRecord-of_passes (str s) h = cc
IsPourRecord-of_passes (arr vs) h = cc

passes→returns : (x : Json) → bad_field x ≡ none → assert_pour_record x ≡ returns tt
unfolding assert_pour_record
passes→returns x h = rw (assert_pour_record, h)

IsPourRecord-passes : (x : Json) → IsPourRecord x → bad_field x ≡ none
IsPourRecord-passes x (fields, e, (r, h)) = rw e (Represents-passes fields r h)

-- The guard returns exactly on the values that spell a pour record: an object with every field of
-- `PourRecord` under its name and of its type, the numbers finite and the rarity one of the four.
pub assert_pour_record_iff : (x : Json) → (assert_pour_record x ≡ returns tt) ↔ IsPourRecord x
assert_pour_record_iff x = (
  λ h. IsPourRecord-of_passes x (assert-none x h),
  λ h. passes→returns x (IsPourRecord-passes x h),
)
