-- ===== src/Number/Elements.antt =====
-- `xs[i]` for an array and a Number: undefined unless i is a whole number in range.
use moltenpour.Prelude.{◌/◌, ◌%◌, ◌==◌, if◌then◌else◌, Option, none, List, get_elem?, pos}
use moltenpour.Number.Value.{Number, fin, unit}

unfoldable pub element {ℓ} : {A : Type ℓ} → List A → Number → Option A
element xs (fin (pos n)) = if n % unit == 0 then get_elem? xs (n / unit) else none
element xs x = none
