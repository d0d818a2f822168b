-- ===== src/Certificate/Quiet.antt =====
-- The sheet offers nothing to do; the toolbar above it does.
use moltenpour.Prelude.{[], ◌∷◌, ◌≡◌}
use moltenpour.Number.{Number}
use moltenpour.Number.UpTo.{nat}
use moltenpour.Api.{text_eq}
use moltenpour.Record.{PourRecord}
use moltenpour.Markup.{live, handlers_here, disabled}
use moltenpour.Design.{rarity_presentation}
use moltenpour.Sigil.{sigil_svg, sigil_markup, generate_sigil}
use moltenpour.Sigil.Silent.{drawn_live}
use moltenpour.Certificate.Frame.{grain_overlay, vignette, outer_rule, inner_rule, corners, tick}
use moltenpour.Certificate.Parts.{header_strip, title_block, ledger_row, inscription, footer}
use moltenpour.Certificate.Sheet.{
  rows_of, sigil_well, caption, ledger_table, sheet, certificate_in, certificate,
}
use moltenpour.Certificate.View.{
  Zoom, other_zoom, ViewAction, toolbar_button, toolbar, scale_box, certificate_view,
}

quiet : Unit {0}
unfolding live handlers_here disabled text_eq certificate certificate_in sheet sigil_svg
    sigil_markup grain_overlay vignette outer_rule inner_rule corners tick header_strip title_block
    ledger_row inscription footer sigil_well caption ledger_table rows_of toolbar_button toolbar
    scale_box certificate_view
quiet = tt

pub live-certificate_view :
    (H : Type 0) (act : ViewAction → H) (cos sin : Number → Number) (zoom : Zoom)
    (column_w : Number) (pour : PourRecord)
    → live (certificate_view act cos sin zoom column_w pour)
      ≡ act (ViewAction.zoom_set (other_zoom zoom)) ∷ act ViewAction.printed ∷ []
unfolding quiet
live-certificate_view H act cos sin zoom column_w pour = rw (
    drawn_live H (generate_sigil cos sin (nat pour.seed))
      (rarity_presentation pour.rarity).secondary)
