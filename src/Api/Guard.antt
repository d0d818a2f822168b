-- ===== src/Api/Guard.antt =====
-- `assertPourRecord`: the guard in front of every record that comes from the server.
use moltenpour.Prelude.{
  List, [], ◌∷◌, ◌++◌, Option, none, some, Bool, true, false, ◌&&◌, ◌||◌, if◌then◌else◌,
}
use moltenpour.Number.{is_finite}
use moltenpour.Text.{Text, codes}
use moltenpour.Rarity.{Rarity}
use moltenpour.Api.TextEq.{text_eq}
use moltenpour.Api.Json.{Json, Items, Fields, num, str, arr, obj, nil, cons, property}
use moltenpour.Api.Errors.{ApiErrorCode, api_error}
use moltenpour.Api.Fetch.{Result, returns, throws}

-- The members of the array `RARITIES`.
abbrev pub rarity_name : Rarity → Text
rarity_name Rarity.common = codes "Common"
rarity_name Rarity.uncommon = codes "Uncommon"
rarity_name Rarity.rare = codes "Rare"
rarity_name Rarity.singular = codes "Singular"

unfoldable pub rarities : List Rarity
rarities = Rarity.common ∷ Rarity.uncommon ∷ Rarity.rare ∷ Rarity.singular ∷ []

-- `typeof v === "string"`.
unfoldable pub is_string : Option Json → Bool
is_string (some (str s)) = true
is_string v = false

-- `typeof v === "number" && Number.isFinite(v)`.
unfoldable pub is_finite_number : Option Json → Bool
is_finite_number (some (num n)) = is_finite n
is_finite_number v = false

unfoldable pub is_named : Text → List Rarity → Bool
is_named s [] = false
is_named s (r ∷ rs) = text_eq (rarity_name r) s || is_named s rs

-- `RARITIES.includes(v)`.
unfoldable pub is_rarity : Option Json → Bool
is_rarity (some (str s)) = is_named s rarities
is_rarity v = false

unfoldable pub all_strings : Items → Bool
all_strings nil = true
all_strings (cons v vs) = is_string (some v) && all_strings vs

-- `Array.isArray(v) && !v.some((w) => typeof w !== "string")`.
unfoldable pub is_string_array : Option Json → Bool
is_string_array (some (arr vs)) = all_strings vs
is_string_array v = false

-- The first name in the list whose property fails the test: the field of the first `bad` call.
unfoldable pub first_bad : (Option Json → Bool) → List Text → Fields → Option Text
first_bad test [] x = none
first_bad test (f ∷ fs) x = if test (property f x) then first_bad test fs x else some f

abbrev pub text_fields : List Text
text_fields = codes "id" ∷ codes "serial" ∷ codes "batch" ∷ codes "issued" ∷ []

abbrev pub number_fields : List Text
number_fields =
    codes "ledgerPosition"
    ∷ codes "tierIndex"
    ∷ codes "amountCents"
    ∷ codes "timestampMs"
    ∷ codes "seed"
    ∷ codes "rarityScore"
    ∷ codes "massGrams"
    ∷ []

abbrev pub telemetry_fields : List Text
telemetry_fields =
    codes "dropletsLanded" ∷ codes "peakVelocity" ∷ codes "tiltEnergy" ∷ codes "holdMs" ∷ []

-- What is thrown first decides: a later test runs when the earlier ones pass.
abbrev pub or_next : Option Text → Option Text → Option Text
or_next none b = b
or_next (some a) b = some a

-- The field as `bad` names it.
abbrev pub in_telemetry : Option Text → Option Text
in_telemetry none = none
in_telemetry (some f) = some (codes "telemetry." ++ f)

unfoldable pub bad_telemetry : Option Json → Option Text
bad_telemetry (some (obj t)) = in_telemetry (first_bad is_finite_number telemetry_fields t)
bad_telemetry v = some (codes "telemetry")

unfoldable pub bad_field : Json → Option Text
bad_field (obj x) = or_next (first_bad is_string text_fields x) (
    or_next (first_bad is_finite_number number_fields x) (
      or_next (first_bad is_rarity (codes "rarity" ∷ []) x) (
        or_next (first_bad is_string_array (codes "violations" ∷ []) x)
          (bad_telemetry (property (codes "telemetry") x)))))
bad_field v = some (codes "record")

unfoldable pub malformed : Text → Result (Unit {0})
malformed field = throws (
    api_error ApiErrorCode.server 0
      (codes "The ledger returned a malformed record (" ++ field ++ codes ")."))

unfoldable pub assert_pour_record : Json → Result (Unit {0})
assert_pour_record x = elim (bad_field x) [ none ↦ returns tt | some f ↦ malformed f ]
