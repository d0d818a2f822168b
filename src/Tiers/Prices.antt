-- ===== src/Tiers/Prices.antt =====
-- Prices are printed to the cent.
use moltenpour.Prelude.{ℕ, ◌/◌, ◌%◌, ◌^◌, ◌<◌, ◌≡◌, arith, ap, ◌∙◌, ◌++◌, ◌∷◌}
use moltenpour.Number.{of_ℕ}
use moltenpour.Text.{codes, show, fixed_digits, with_point}
use moltenpour.Text.Decimal.{read, read-show, read_from-fixed_digits_two}
use moltenpour.Text.Fixed.{to_fixed-quotient}
use moltenpour.Tiers.Defs.{format_usd}

-- An amount of fewer than 2 ^ 51 cents is printed as its dollars, a point and its two digits of
-- cents, which read as the amount: the division by 100 in floating point never moves a cent.
pub format_usd_lem :
    (cents : ℕ)
    → cents < 2 ^ 51
    → let dollars = show (cents / 100) ++ b'.' ∷ fixed_digits 2 (cents % 100) in
      (format_usd (of_ℕ cents) ≡ codes "USD " ++ dollars) × (read dollars ≡ cents)
unfolding format_usd with_point
format_usd_lem cents small = (
  ap (λ t. codes "USD " ++ t) (to_fixed-quotient 2 cents (omega arith) (omega arith) small),
  read-show (cents / 100) (b'.' ∷ fixed_digits 2 (cents % 100))
      ∙ read_from-fixed_digits_two (cents / 100) (cents % 100) (omega arith)
      ∙ omega arith,
)
