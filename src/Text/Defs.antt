-- ===== src/Text/Defs.antt =====
-- Text as lists of character codes, and how ECMAScript prints numbers.
use Prim.Native.Char.{code}
use Prim.Native.String.{String}
use moltenpour.Prelude.{ℕ, zero, suc, ◌+◌, ◌-◌, ◌*◌, ◌/◌, ◌%◌, ◌^◌, ◌==◌, ltb, true, false}
use moltenpour.Prelude.{List, [], ◌∷◌, ◌++◌, length, pos, negsuc}
use moltenpour.Number.{Number, nan, pos_inf, neg_inf, fin, unit}

abbrev pub Text : Type 0
Text = List ℕ

-- A literal.
abbrev pub codes : String → Text
codes String.[] = []
codes (String.◌∷◌ c s) = code c ∷ codes s

-- `String(n)` of a whole number: its decimal digits, the last ones in front of `acc`.
unfoldable pub show_from : ℕ → ℕ → Text → Text
show_from zero n acc = acc
show_from (suc fuel) n acc =
    let digits = (b'0' + n % 10) ∷ acc in
    elim (n / 10 == 0) [ true ↦ digits | false ↦ show_from fuel (n / 10) digits ]

-- A number has fewer digits than its value and one.
unfoldable pub show : ℕ → Text
show n = show_from (suc n) n []

-- The last d decimal digits of k.
unfoldable pub fixed_digits : ℕ → ℕ → Text
fixed_digits zero k = []
fixed_digits (suc d) k = fixed_digits d (k / 10) ++ (b'0' + k % 10) ∷ []

-- k hundredths, thousandths and so on, with d decimals.
unfoldable pub with_point : ℕ → ℕ → Text
with_point zero k = show k
with_point (suc d) k = show (k / 10 ^ suc d) ++ b'.' ∷ fixed_digits (suc d) (k % 10 ^ suc d)

-- The whole number nearest to n units times 10 ^ d, the larger at a tie.
unfoldable pub nearest_decimal : ℕ → ℕ → ℕ
nearest_decimal d n = (2 * (n * 10 ^ d) + unit) / (2 * unit)

-- `x.toFixed(d)`, for numbers below 10 ^ 21 in magnitude, as every number that the program prints.
unfoldable pub to_fixed : ℕ → Number → Text
to_fixed d (fin (pos n)) = with_point d (nearest_decimal d n)
to_fixed d (fin (negsuc n)) = b'-' ∷ with_point d (nearest_decimal d (suc n))
to_fixed d nan = codes "NaN"
to_fixed d pos_inf = codes "Infinity"
to_fixed d neg_inf = codes "-Infinity"

-- `s.padStart(width, c)`.
unfoldable pub pad_from : ℕ → ℕ → Text → Text
pad_from zero c s = s
pad_from (suc n) c s = c ∷ pad_from n c s

unfoldable pub pad_start : ℕ → ℕ → Text → Text
pad_start width c s = pad_from (width - length s) c s

-- `n.toLocaleString("en-US")` of a whole number: groups of three digits.
unfoldable pub grouped_from : ℕ → ℕ → Text
grouped_from zero n = []
grouped_from (suc fuel) n = elim (ltb n 1000) [
  | true ↦ show n
  | false ↦ grouped_from fuel (n / 1000) ++ b',' ∷ fixed_digits 3 (n % 1000)
]

unfoldable pub grouped : ℕ → Text
grouped n = grouped_from (suc n) n
