-- ===== src/Record/Printed.antt =====
-- What is printed of a record can be read back.
use moltenpour.Prelude.{
  ℕ, ◌/◌, ◌%◌, ◌^◌, ◌<◌, ◌≡◌, refl, arith, ap, ◌∙◌, sym, [], ◌∷◌, ◌++◌, append-nil,
}
use moltenpour.Number.{of_ℕ, ◌/ₙ◌}
use moltenpour.Text.{Text, codes, show, fixed_digits, with_point, grouped}
use moltenpour.Text.Decimal.{read, read-show, read-grouped, read_from-fixed_digits_two}
use moltenpour.Text.Fixed.{to_fixed-quotient}
use moltenpour.Record.Defs.{format_mass, format_ledger_position, format_ordinal}

read-grouped_whole : (n : ℕ) → read (grouped n) ≡ n
read-grouped_whole n = sym (ap read (append-nil (grouped n))) ∙ read-grouped n []

-- A ledger position is printed as its digits in groups of three, behind "No. " and behind "№", and
-- those digits read as the position: no two positions are printed alike.
pub format_position_lem :
    (position : ℕ)
    → (digits : Text) × ((format_ledger_position position ≡ codes "No. " ++ digits)
        × ((format_ordinal position ≡ codes "№" ++ digits) × (read digits ≡ position)))
unfolding format_ledger_position format_ordinal
format_position_lem position = (grouped position, (refl, (refl, read-grouped_whole position)))

-- A mass of fewer than 2 ^ 51 hundredths of a gram, which is the nearest double, is printed as its
-- grams, a point and its two digits of hundredths, which read as those hundredths.
pub format_mass_lem :
    (hundredths : ℕ)
    → hundredths < 2 ^ 51
    → (digits : Text) × ((format_mass (of_ℕ hundredths /ₙ of_ℕ 100) ≡ digits ++ codes " g")
        × (read digits ≡ hundredths))
unfolding format_mass with_point
format_mass_lem c small = (
  show (c / 100) ++ b'.' ∷ fixed_digits 2 (c % 100),
  (
    ap (λ t. t ++ codes " g") (to_fixed-quotient 2 c (omega arith) (omega arith) small),
    read-show (c / 100) (b'.' ∷ fixed_digits 2 (c % 100))
        ∙ read_from-fixed_digits_two (c / 100) (c % 100) (omega arith)
        ∙ omega arith,
  ),
)
