-- ===== src/Text/Shortest.antt =====
-- `String(x)`: the fewest decimals that read back as the number.
use moltenpour.Prelude.{ℕ, zero, suc, ◌*◌, ◌^◌, ◌==◌, Bool, true, false, ◌∷◌, pos, negsuc}
use moltenpour.Number.{Number, nan, pos_inf, neg_inf, fin, unit, double}
use moltenpour.Text.Defs.{Text, codes, with_point, nearest_decimal}

abbrev is_magnitude : Number → ℕ → Bool
is_magnitude (fin (pos m)) n = m == n
is_magnitude x n = false

-- Whether k units of the last of d decimals are, as a double, n units of the least one.
unfoldable pub reads_back : ℕ → ℕ → ℕ → Bool
reads_back d k n = is_magnitude (double (pos (k * unit)) (10 ^ d)) n

-- From d decimals on, with `fuel` more to try.
unfoldable pub shortest_from : ℕ → ℕ → ℕ → Text
shortest_from zero d n = with_point d (nearest_decimal d n)
shortest_from (suc fuel) d n = elim (reads_back d (nearest_decimal d n) n) [
  | true ↦ with_point d (nearest_decimal d n)
  | false ↦ shortest_from fuel (suc d) n
]

-- A double has at most seventeen significant digits, so that twenty-three decimals are enough from a
-- millionth on. The program prints zero, and numbers between a millionth and 2 ^ 53.
unfoldable pub show_number : Number → Text
show_number (fin (pos n)) = shortest_from 23 0 n
show_number (fin (negsuc n)) = b'-' ∷ shortest_from 23 0 (suc n)
show_number nan = codes "NaN"
show_number pos_inf = codes "Infinity"
show_number neg_inf = codes "-Infinity"
