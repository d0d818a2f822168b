-- ===== src/Certificate/Said.antt =====
-- What a screen reader is given of the sheet.
use moltenpour.Prelude.{
  List, [], ◌∷◌, ◌++◌, Bool, true, false, if◌then◌else◌, some, ◌≡◌, refl, sym, ap, ◌∙◌,
}
use moltenpour.Number.{Number, of_ℕ, round, ◌<=ₙ◌}
use moltenpour.Number.UpTo.{nat}
use moltenpour.Rarity.{Rarity}
use moltenpour.Tiers.{format_usd, format_consideration}
use moltenpour.Certificate.Named.{certificate_named-in, some-injective}
use moltenpour.Text.{Text, codes, grouped, show_number, to_fixed}
use moltenpour.Api.{text_eq, rarity_name}
use moltenpour.Record.{PourRecord, format_mass, format_ledger_position}
use moltenpour.Markup.{Node, spoken, spoken_in, hidden}
use moltenpour.Design.{rarity_presentation}
use moltenpour.Sigil.{sigil_svg, sigil_markup}
use moltenpour.Certificate.Frame.{grain_overlay, vignette, outer_rule, inner_rule, corners, tick}
use moltenpour.Certificate.Parts.{header_strip, title_block, ledger_row, inscription, footer}
use moltenpour.Certificate.Sheet.{
  drawn_rarity, rows_of, sigil_well, caption, ledger_table, sheet, certificate_in,
  certificate_named,
}

saying : Unit {0}
unfolding spoken spoken_in hidden text_eq certificate_in sheet sigil_svg sigil_markup grain_overlay
    vignette outer_rule inner_rule corners tick header_strip title_block ledger_row inscription
    footer sigil_well caption ledger_table rows_of format_ledger_position format_mass
    format_consideration rarity_presentation
saying = tt

-- The labels of a certificate.
abbrev pub ledger_terms : List Text
ledger_terms =
    codes "Serial"
    ∷ codes "Ledger position"
    ∷ codes "Substance"
    ∷ codes "Classification"
    ∷ codes "Mass rendered irrecoverable"
    ∷ codes "Batch"
    ∷ codes "Consideration"
    ∷ codes "Issued"
    ∷ []

abbrev pub substance_of : Rarity → Text
substance_of Rarity.common = codes "Brass"
substance_of Rarity.uncommon = codes "Gold"
substance_of Rarity.rare = codes "Alloy"
substance_of Rarity.singular = codes "Living Metal"

-- The values of a record in a rarity, with its position in groups of three digits, its score rounded, its
-- mass to two decimals, and its price.
abbrev pub ledger_values : Rarity → PourRecord → List Text
ledger_values rarity pour =
    pour.serial
    ∷ (codes "No. " ++ grouped (nat pour.ledger_position))
    ∷ substance_of rarity
    ∷ (rarity_name rarity ++ codes " · " ++ show_number (round pour.rarity_score))
    ∷ (to_fixed 2 pour.mass_grams ++ codes " g")
    ∷ pour.batch
    ∷ (if pour.amount_cents <=ₙ of_ℕ 0 then codes "Free" else format_usd pour.amount_cents)
    ∷ pour.issued
    ∷ []

said :
    (H : Type 0) (cos sin : Number → Number) (rarity : Rarity) (grain : Bool) (pour : PourRecord)
    → let page : Node H = certificate_in cos sin rarity grain pour in
      (spoken_in (codes "dt") page ≡ ledger_terms)
      × (spoken_in (codes "dd") page ≡ ledger_values rarity pour)
unfolding saying
said H cos sin Rarity.common true pour = (refl, refl)
said H cos sin Rarity.uncommon true pour = (refl, refl)
said H cos sin Rarity.rare true pour = (refl, refl)
said H cos sin Rarity.singular true pour = (refl, refl)
said H cos sin Rarity.common false pour = (refl, refl)
said H cos sin Rarity.uncommon false pour = (refl, refl)
said H cos sin Rarity.rare false pour = (refl, refl)
said H cos sin Rarity.singular false pour = (refl, refl)

-- Of the ledger of a certificate that is drawn a screen reader is given the eight labels Serial, Ledger
-- position, Substance, Classification, Mass rendered irrecoverable, Batch, Consideration and Issued as
-- the only terms, and as the only descriptions, in the same order, the serial, the numbered position, the
-- substance of the rarity, the rarity with the rounded score, the mass, the batch, the price and the
-- date of the record, whatever the name of the rarity, the grain and the sigil.
pub certificate_named_ledger :
    (H : Type 0) (cos sin : Number → Number) (name : Text) (rarity : Rarity) (grain : Bool)
    (pour : PourRecord) (page : Node H)
    → drawn_rarity name ≡ some rarity
    → certificate_named cos sin name grain pour ≡ some page
    → (spoken_in (codes "dt") page ≡ ledger_terms)
      × (spoken_in (codes "dd") page ≡ ledger_values rarity pour)
certificate_named_ledger H cos sin name rarity grain pour page named drawn =
    let (r, e, same) = certificate_named-in cos sin name grain pour page drawn in
    let (terms, values) = said H cos sin r grain pour in
    let alike : r ≡ rarity = some-injective r rarity (sym e ∙ named) in
    (
      ap (λ p. spoken_in (codes "dt") p) same ∙ terms,
      ap (λ p. spoken_in (codes "dd") p) same ∙ values ∙ ap (λ q. ledger_values q pour) alike,
    )
