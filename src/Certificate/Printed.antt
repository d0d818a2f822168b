-- ===== src/Certificate/Printed.antt =====
-- What may be printed on the sheet, in every rarity.
use moltenpour.Prelude.{
  map, Bool, true, false, not, if◌then◌else◌, ◌&&◌, ◌≡◌, refl, ap, ap₂, ◌∙◌, some,
}
use moltenpour.Number.{Number, running, ◌<=ₙ◌}
use moltenpour.Text.{Text, codes}
use moltenpour.Text.Tests.{printing}
use moltenpour.Api.{text_eq, rarity_name}
use moltenpour.Rarity.{Rarity}
use moltenpour.Markup.{Node, Declaration, declared, declared_here, all_declarations, CssValue}
use moltenpour.Scripts.{has_viewport_unit, any_unit, unit_at, viewport_units, ends_word, is_digit}
use moltenpour.Markup.Laws.{declared-map, declared-append}
use moltenpour.Record.{PourRecord}
use moltenpour.Design.{
  color, font, instrument_min_px, leader_rule, page_ground, grain_url, rarity_presentation,
}
use moltenpour.Number.UpTo.{nat}
use moltenpour.Sigil.{
  generate_sigil, sigil_svg, SigilGeometry, sigil_markup, tendril_line, satellite_circle,
}
use moltenpour.Certificate.Frame.{
  page_w, page_h, grain_overlay, vignette, outer_rule, inner_rule, vertical_name, horizontal_name,
  vertical_border, horizontal_border, corners, tick,
}
use moltenpour.Certificate.Parts.{label, header_strip, title_block, ledger_row, inscription, footer}
use moltenpour.Certificate.Sheet.{
  rows_of, sigil_well, caption, ledger_table, sheet, certificate_in, certificate_named,
}
use moltenpour.Certificate.Named.{certificate_named-in}

-- No length follows the window, as scripts/verify-certificate.ts tests for it.
unfoldable pub is_fixed : CssValue → Bool
is_fixed (CssValue.raw t) = not (has_viewport_unit t)
is_fixed (CssValue.numeric n) = true

unfoldable pub at_least : Number → CssValue → Bool
at_least least (CssValue.raw t) = false
at_least least (CssValue.numeric n) = least <=ₙ n

-- What may be printed: no length follows the window, and a font size is a number of pixels at or above `least`.
unfoldable pub is_printable : Number → Declaration → Bool
is_printable least d =
    is_fixed d.value
    && (if text_eq d.property (codes "fontSize") then at_least least d.value else true)

pub print_safe : Unit {0}
unfolding running printing declared declared_here all_declarations is_printable is_fixed at_least
    has_viewport_unit any_unit unit_at viewport_units ends_word is_digit text_eq sigil_markup
    tendril_line satellite_circle color font leader_rule page_ground grain_url rarity_presentation
    instrument_min_px page_w page_h grain_overlay vignette outer_rule inner_rule tick vertical_name
    horizontal_name vertical_border horizontal_border corners label header_strip title_block
    ledger_row inscription footer sigil_well caption ledger_table rows_of
print_safe = tt

sigil_markup_printable :
    (H : Type 0) (g : SigilGeometry) (s t : Text)
    → declared {H = H} (is_printable instrument_min_px) (sigil_markup g s t 300) ≡ true
unfolding print_safe
sigil_markup_printable H g s t =
    let p = is_printable instrument_min_px in
    rw (declared-append p (map (tendril_line t) g.tendrils) (map (satellite_circle t) g.satellites))
      (ap₂ (λ a b. a && b) (declared-map (tendril_line t) p g.tendrils (λ x. refl))
        (declared-map (satellite_circle t) p g.satellites (λ x. refl)))

sheet_printable :
    {H : Type 0} (r : Rarity) (name : Text) (sigil : Node H) (grain : Bool) (pour : PourRecord)
    → declared (is_printable instrument_min_px) sigil ≡ true
    → declared
        (is_printable instrument_min_px)
        (sheet (rarity_presentation r) name sigil grain pour)
      ≡ true
unfolding print_safe sheet
sheet_printable Rarity.common name sigil true pour h = rw h
sheet_printable Rarity.uncommon name sigil true pour h = rw h
sheet_printable Rarity.rare name sigil true pour h = rw h
sheet_printable Rarity.singular name sigil true pour h = rw h
sheet_printable Rarity.common name sigil false pour h = rw h
sheet_printable Rarity.uncommon name sigil false pour h = rw h
sheet_printable Rarity.rare name sigil false pour h = rw h
sheet_printable Rarity.singular name sigil false pour h = rw h

certificate_in_printable :
    (H : Type 0) (cos sin : Number → Number) (r : Rarity) (grain : Bool) (pour : PourRecord)
    → declared {H = H} (is_printable instrument_min_px) (certificate_in cos sin r grain pour) ≡ true
unfolding certificate_in sigil_svg
certificate_in_printable H cos sin r grain pour = sheet_printable r (rarity_name r) _ grain pour (
    sigil_markup_printable H (generate_sigil cos sin (nat pour.seed)) (rarity_presentation r).accent
      (rarity_presentation r).secondary)

-- On every certificate that is drawn, whatever the name of the rarity, with the grain or without, no length in a style follows
-- the size of the window, as verify-certificate.ts tests for it, and every font size is a number
-- of pixels at or above the floor of 12.
pub certificate_named_printable :
    (H : Type 0) (cos sin : Number → Number) (name : Text) (grain : Bool) (pour : PourRecord)
    (page : Node H)
    → certificate_named cos sin name grain pour ≡ some page
    → declared (is_printable instrument_min_px) page ≡ true
certificate_named_printable H cos sin name grain pour page drawn =
    let (r, e, same) = certificate_named-in cos sin name grain pour page drawn in
    ap (λ p. declared (is_printable instrument_min_px) p) same
    ∙ certificate_in_printable H cos sin r grain pour
