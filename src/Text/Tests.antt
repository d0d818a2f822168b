-- ===== src/Text/Tests.antt =====
-- Printed numbers.
use moltenpour.Prelude.{◌≡◌, refl}
use moltenpour.Number.{ratio, of_ℕ, ◌*ₙ◌, ◌/ₙ◌, running}
use moltenpour.Text.Shortest.{show_number, shortest_from, reads_back}
use moltenpour.Text.Defs.{
  codes, show, show_from, to_fixed, with_point, fixed_digits, nearest_decimal, grouped,
  grouped_from,
}

unfoldable pub printing : Unit {0}
unfolding running show show_from to_fixed with_point fixed_digits nearest_decimal grouped
    grouped_from show_number shortest_from reads_back
printing = tt

fixed : to_fixed 2 (ratio 310965 1000) ≡ codes "310.96"
unfolding printing
fixed = refl

commas : grouped 1234567 ≡ codes "1,234,567"
unfolding printing
commas = refl

fraction : show_number (ratio 7 100 *ₙ of_ℕ 100) ≡ codes "7.000000000000001"
unfolding printing
fraction = refl

third : show_number (of_ℕ 1 /ₙ of_ℕ 3) ≡ codes "0.3333333333333333"
unfolding printing
third = refl

whole : show_number (of_ℕ 794) ≡ codes "794"
unfolding printing
whole = refl
