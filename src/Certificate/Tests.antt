-- ===== src/Certificate/Tests.antt =====
-- Sheets of the proof's specimens.
use moltenpour.Prelude.{ℕ, ◌+◌, ◌≤◌, true, none, some, ◌⊎◌, ◌≡◌, refl, arith}
use moltenpour.Number.{Number, of_ℕ}
use moltenpour.Text.{codes, pad_start, pad_from}
use moltenpour.Text.Tests.{printing}
use moltenpour.Api.{text_eq}
use moltenpour.Rarity.{Rarity}
use moltenpour.Record.{PourRecord}
use moltenpour.Markup.{Node, declared, layout, spoken_in}
use moltenpour.Design.{instrument_min_px}
use moltenpour.Certificate.{
  certificate_in, certificate_named, known_rarity, drawn_rarity, inherited_names, is_one_of,
  specimen, folio, Zoom, shown_width,
}
use moltenpour.Certificate.Printed.{is_printable, certificate_named_printable}
use moltenpour.Certificate.Alike.{layout-certificate_named}
use moltenpour.Certificate.Said.{ledger_terms, ledger_values, certificate_named_ledger}
use moltenpour.Certificate.Named.{certificate_named_own}
use moltenpour.Certificate.Fits.{shown_width_fits}

abbrev pub cos : Number → Number
cos x = of_ℕ 1

abbrev pub sin : Number → Number
sin x = of_ℕ 0

abbrev pub proof_pour : PourRecord
unfolding specimen
proof_pour = specimen Rarity.rare 2

-- The specimen's serial and mass, as they are printed.
proof_serial : (specimen Rarity.rare 2).serial ≡ codes "MP-0001286-42E2"
unfolding specimen folio printing pad_start pad_from
proof_serial = refl

-- The sheet of the specimen in a rarity.
abbrev page : Rarity → Node Unit
page rarity = certificate_in cos sin rarity true (specimen Rarity.rare 2)

rare_drawn :
    certificate_named cos sin (codes "Rare") true (specimen Rarity.rare 2) ≡ some (page Rarity.rare)
rare_drawn = certificate_named_own cos sin Rarity.rare true (specimen Rarity.rare 2)

-- An unknown name, and an inherited one.
legendary_drawn :
    certificate_named cos sin (codes "Legendary") true (specimen Rarity.rare 2)
    ≡ some (page Rarity.common)
unfolding certificate_named drawn_rarity known_rarity inherited_names is_one_of text_eq
legendary_drawn = refl

constructor_drawn : drawn_rarity (codes "constructor") ≡ none
unfolding drawn_rarity inherited_names is_one_of text_eq
constructor_drawn = refl

certificate_named_printable_example :
    declared (is_printable instrument_min_px) (page Rarity.rare) ≡ true
certificate_named_printable_example =
    certificate_named_printable Unit cos sin (codes "Rare") true (specimen Rarity.rare 2)
      (page Rarity.rare) rare_drawn

layout-certificate_named_example : layout (page Rarity.common) ≡ layout (page Rarity.rare)
layout-certificate_named_example =
    layout-certificate_named Unit cos sin (codes "Legendary") (codes "Rare") true
      (specimen Rarity.rare 2) (page Rarity.common) (page Rarity.rare) legendary_drawn rare_drawn

rare_name : drawn_rarity (codes "Rare") ≡ some Rarity.rare
unfolding drawn_rarity known_rarity inherited_names is_one_of text_eq
rare_name = refl

certificate_named_ledger_example :
    (spoken_in (codes "dt") (page Rarity.rare) ≡ ledger_terms)
    × (spoken_in (codes "dd") (page Rarity.rare)
        ≡ ledger_values Rarity.rare (specimen Rarity.rare 2))
certificate_named_ledger_example =
    certificate_named_ledger Unit cos sin (codes "Rare") Rarity.rare true (specimen Rarity.rare 2)
      (page Rarity.rare) rare_name rare_drawn

shown_width_fits_example :
    (s : ℕ) × (shown_width Zoom.fit (of_ℕ 375) ≡ of_ℕ s)
    × (s ≤ 375)
    × (s ≤ 794)
    × ((s ≡ 794) ⊎ (375 ≤ s + 1))
shown_width_fits_example = shown_width_fits 375 (omega arith) (omega arith)
