-- ===== src/Certificate/Alike.antt =====
-- One layout for every rarity, and what the sheet says.
use moltenpour.Prelude.{ℕ, map, Bool, true, false, ◌≡◌, refl, ap, sym, ◌∙◌, some}
use moltenpour.Number.{Number}
use moltenpour.Number.UpTo.{nat}
use moltenpour.Text.{Text}
use moltenpour.Api.{text_eq}
use moltenpour.Rarity.{Rarity}
use moltenpour.Record.{PourRecord}
use moltenpour.Markup.{Node, layout, blank_attr, blank_declaration, one_of}
use moltenpour.Markup.Laws.{layout-map, layout-map_end}
use moltenpour.Number.{of_ℕ}
use moltenpour.Design.{page_ground, font, color, leader_rule, Presentation, rarity_presentation}
use moltenpour.Sigil.{
  generate_sigil, sigil_svg, SigilGeometry, sigil_markup, tendril_line, satellite_circle,
}
use moltenpour.Certificate.Frame.{
  page_w, page_h, grain_overlay, vignette, outer_rule, inner_rule, corners, tick,
}
use moltenpour.Certificate.Parts.{label, header_strip, title_block, ledger_row, inscription, footer}
use moltenpour.Certificate.Sheet.{
  rows_of, sigil_well, caption, ledger_table, sheet, certificate_in, certificate_named,
}
use moltenpour.Certificate.Named.{certificate_named-in}

pub drawing : Unit {0}
unfolding layout blank_attr blank_declaration one_of text_eq sheet sigil_markup tendril_line
    satellite_circle header_strip title_block ledger_row inscription footer sigil_well caption
    ledger_table rows_of page_w page_h page_ground font vignette outer_rule inner_rule corners of_ℕ
    color tick label leader_rule grain_overlay
drawing = tt

layout-sigil_markup :
    (H : Type 0) (g : SigilGeometry) (s t s2 t2 : Text) (m : ℕ)
    → layout {H = H} (sigil_markup g s t m) ≡ layout (sigil_markup g s2 t2 m)
unfolding drawing
layout-sigil_markup H g s t s2 t2 m = rw (
    layout-map (tendril_line t) (tendril_line t2) g.tendrils (map (satellite_circle t) g.satellites)
      (map (satellite_circle t2) g.satellites) (λ x. refl)
      (layout-map_end (satellite_circle t) (satellite_circle t2) g.satellites (λ x. refl)))

layout-sheet :
    {H : Type 0} (p q : Presentation) (a b : Text) (u v : Node H) (grain : Bool) (pour : PourRecord)
    → layout u ≡ layout v
    → layout (sheet p a u grain pour) ≡ layout (sheet q b v grain pour)
unfolding drawing
layout-sheet p q a b u v true pour h = rw h
layout-sheet p q a b u v false pour h = rw h

layout-certificate_in :
    {H : Type 0} (cos sin : Number → Number) (r q : Rarity) (grain : Bool) (pour : PourRecord)
    → layout {H = H} (certificate_in cos sin r grain pour)
      ≡ layout (certificate_in cos sin q grain pour)
unfolding certificate_in sigil_svg
layout-certificate_in {H} cos sin r q grain pour =
    layout-sheet (rarity_presentation r) (rarity_presentation q) _ _ _ _ grain pour
      (layout-sigil_markup H (generate_sigil cos sin (nat pour.seed)) _ _ _ _ 300)

-- The certificates of one record under any two names of a rarity that are drawn have one layout: the same
-- elements with the same attributes and styles in the same order, but for the texts and for the
-- values of color, fill, stroke and stopColor.
pub layout-certificate_named :
    (H : Type 0) (cos sin : Number → Number) (a b : Text) (grain : Bool) (pour : PourRecord)
    (page other : Node H)
    → certificate_named cos sin a grain pour ≡ some page
    → certificate_named cos sin b grain pour ≡ some other
    → layout page ≡ layout other
layout-certificate_named H cos sin a b grain pour page other drawn drawn_other =
    let (r, e, same) = certificate_named-in cos sin a grain pour page drawn in
    let (q, f, alike) = certificate_named-in cos sin b grain pour other drawn_other in
    ap layout same ∙ layout-certificate_in cos sin r q grain pour ∙ sym (ap layout alike)
