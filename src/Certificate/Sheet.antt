-- ===== src/Certificate/Sheet.antt =====
-- app/certificate/Certificate.tsx: the rarity that the sheet is drawn in, its rows, and the sheet. The
-- seed and the position of a record are whole numbers, as the ledger keeps them.
use moltenpour.Prelude.{List, [], ◌∷◌, ◌++◌, map, Bool, false, ◌||◌, if◌then◌else◌}
use moltenpour.Number.{Number, round}
use moltenpour.Text.{Text, codes, show_number, grouped}
use moltenpour.Markup.{Node, text, word, css, px, num, el, styled, a}
use moltenpour.Design.{color, font, page_ground, Presentation}
use moltenpour.Record.{PourRecord, format_mass, format_ledger_position}
use moltenpour.Prelude.{Option, none, some}
use moltenpour.Number.UpTo.{nat}
use moltenpour.Rarity.{Rarity}
use moltenpour.Tiers.{format_consideration}
use moltenpour.Api.{rarity_name, text_eq}
use moltenpour.Design.{rarity_presentation}
use moltenpour.Sigil.{sigil_svg}
use moltenpour.Certificate.Frame.{
  page_w, page_h, grain_overlay, vignette, outer_rule, inner_rule, tick, corners,
}
use moltenpour.Certificate.Parts.{header_strip, title_block, ledger_row, inscription, footer}

abbrev pub or_common : Option Rarity → Rarity
or_common none = Rarity.common
or_common (some r) = r

-- The keys that `RARITY_PRESENTATION` has of its own.
unfoldable pub known_rarity : Text → Option Rarity
known_rarity name =
    if text_eq name (rarity_name Rarity.common)
    then some Rarity.common
    else if text_eq name (rarity_name Rarity.uncommon)
    then some Rarity.uncommon
    else if text_eq name (rarity_name Rarity.rare)
    then some Rarity.rare
    else if text_eq name (rarity_name Rarity.singular)
    then some Rarity.singular
    else none

-- The keys that it inherits, as every object literal does.
unfoldable pub inherited_names : List Text
inherited_names =
    codes "constructor"
    ∷ codes "__proto__"
    ∷ codes "__defineGetter__"
    ∷ codes "__defineSetter__"
    ∷ codes "__lookupGetter__"
    ∷ codes "__lookupSetter__"
    ∷ codes "hasOwnProperty"
    ∷ codes "isPrototypeOf"
    ∷ codes "propertyIsEnumerable"
    ∷ codes "toLocaleString"
    ∷ codes "toString"
    ∷ codes "valueOf"
    ∷ []

unfoldable pub is_one_of : Text → List Text → Bool
is_one_of name [] = false
is_one_of name (key ∷ keys) = text_eq name key || is_one_of name keys

-- A name that is neither falls back to Common; the log is not modelled. What is found under an inherited
-- name is no presentation, and passes the test: there the sheet is drawn without colors, which is not
-- modelled.
unfoldable pub drawn_rarity : Text → Option Rarity
drawn_rarity name =
    if is_one_of name inherited_names then none else some (or_common (known_rarity name))

unfoldable pub rows_of : Presentation → Text → PourRecord → List (Text × Text)
rows_of shown rarity pour =
    (codes "Serial", pour.serial)
    ∷ (codes "Ledger position", format_ledger_position (nat pour.ledger_position))
    ∷ (codes "Substance", shown.substance)
    ∷ (codes "Classification", rarity ++ codes " · " ++ show_number (round pour.rarity_score))
    ∷ (codes "Mass rendered irrecoverable", format_mass pour.mass_grams)
    ∷ (codes "Batch", pour.batch)
    ∷ (codes "Consideration", format_consideration pour.amount_cents)
    ∷ (codes "Issued", pour.issued)
    ∷ []

unfoldable pub sigil_well : {H : Type 0} → Node H → Node H
sigil_well sigil =
    el "div"
      (styled (
          px "flex" 1
          ∷ px "minHeight" 0
          ∷ css "display" "flex"
          ∷ css "alignItems" "center"
          ∷ css "justifyContent" "center"
          ∷ css "padding" "6px 0 2px"
          ∷ [])
        ∷ [])
      (sigil ∷ [])

unfoldable pub caption : {H : Type 0} → Presentation → Text → PourRecord → Node H
caption shown rarity pour =
    el "div"
      (styled (css "display" "flex" ∷ css "justifyContent" "center" ∷ px "paddingBottom" 16 ∷ [])
        ∷ [])
      (el "span"
          (styled (
              px "fontSize" 12
              ∷ css "letterSpacing" "3px"
              ∷ css "textTransform" "uppercase"
              ∷ word "color" shown.secondary
              ∷ css "fontVariantNumeric" "tabular-nums"
              ∷ [])
            ∷ [])
          (text (
              codes "Pour №"
              ++ grouped (nat pour.ledger_position)
              ++ codes " · "
              ++ rarity
              ++ codes " · "
              ++ shown.substance)
            ∷ [])
        ∷ [])

unfoldable pub ledger_table : {H : Type 0} → Presentation → List (Text × Text) → Node H
ledger_table shown rows =
    el "dl" (styled (css "display" "flex" ∷ css "flexDirection" "column" ∷ px "margin" 0 ∷ []) ∷ [])
      (map (ledger_row shown) rows)

-- The sheet of a presentation, around a drawn sigil.
unfoldable pub sheet : {H : Type 0} → Presentation → Text → Node H → Bool → PourRecord → Node H
sheet shown rarity sigil grain pour =
    el "section"
      (a "className" "certificate-page"
        ∷ a "aria-label" "Certificate of Waste"
        ∷ styled (
            css "position" "relative"
            ∷ num "width" (page_w)
            ∷ num "height" (page_h)
            ∷ css "overflow" "hidden"
            ∷ word "background" page_ground
            ∷ word "color" color.gold_body
            ∷ word "fontFamily" font.instrument
            ∷ css "printColorAdjust" "exact"
            ∷ css "WebkitPrintColorAdjust" "exact"
            ∷ [])
        ∷ [])
      ((if grain then grain_overlay ∷ [] else [])
        ++ vignette ∷ outer_rule ∷ inner_rule ∷ []
        ++ map tick corners
        ++ el "div"
            (styled (
                css "position" "relative"
                ∷ css "height" "100%"
                ∷ css "boxSizing" "border-box"
                ∷ css "padding" "52px 62px 46px"
                ∷ css "display" "flex"
                ∷ css "flexDirection" "column"
                ∷ [])
              ∷ [])
            (header_strip shown pour
              ∷ title_block shown
              ∷ sigil_well sigil
              ∷ caption shown rarity pour
              ∷ ledger_table shown (rows_of shown rarity pour)
              ∷ inscription
              ∷ footer shown
              ∷ [])
          ∷ [])

-- The sheet in a rarity; the overlay is there unless the caller says no.
unfoldable pub certificate_in :
    {H : Type 0} → (cos sin : Number → Number) → Rarity → Bool → PourRecord → Node H
certificate_in cos sin rarity grain pour =
    let shown = rarity_presentation rarity in
    let sigil = sigil_svg cos sin (nat pour.seed) shown.accent shown.secondary 300 in
    sheet shown (rarity_name rarity) sigil grain pour

-- `Certificate`, for a record whose rarity reads `name`.
unfoldable pub certificate_named :
    {H : Type 0} → (cos sin : Number → Number) → Text → Bool → PourRecord → Option (Node H)
certificate_named cos sin name grain pour = elim (drawn_rarity name) [
  | none ↦ none
  | some rarity ↦ some (certificate_in cos sin rarity grain pour)
]

-- `Certificate`, for a record that the client's guard has passed: its rarity is one of the four.
unfoldable pub certificate : {H : Type 0} → (cos sin : Number → Number) → Bool → PourRecord → Node H
certificate cos sin grain pour = certificate_in cos sin pour.rarity grain pour
