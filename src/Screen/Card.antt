-- ===== src/Screen/Card.antt =====
-- app/ceremony/PourScreen.tsx: the notice and the buttons.
use moltenpour.Prelude.{
  List, [], ◌∷◌, ◌++◌, Option, none, some, Bool, true, false, not, ◌&&◌, ◌||◌, if◌then◌else◌,
}
use moltenpour.Text.{Text, codes}
use moltenpour.Api.{rarity_name}
use moltenpour.Tiers.{tier_at}
use moltenpour.Shell.{Phase}
use moltenpour.Markup.{Node, flag, on, text, word, css, px, num, el, lit, styled, a}
use moltenpour.Design.{color, font, radius, card_border, card_ground, rarity_presentation}
use moltenpour.Screen.Defs.{is_phase}
use moltenpour.Screen.Labels.{Gesture, no_webgl_notice}
use moltenpour.Screen.Schedule.{Props, poured_of}
use moltenpour.Screen.Spec.{card_head, spec_sheet}
use moltenpour.Screen.Band.{classification}

-- What stands in the notice band.
module _ {H : Type 0} where
  unfoldable pub notice_band : Text → Node H
  notice_band notice =
      el "div"
        (a "role" "alert"
          ∷ styled (
              css "padding" "12px 14px"
              ∷ word "border" (codes "1px solid " ++ color.tick_mid)
              ∷ num "borderRadius" radius.row
              ∷ css "display" "flex"
              ∷ css "flexDirection" "column"
              ∷ px "gap" 5
              ∷ [])
          ∷ [])
        (el "span"
            (styled (
                px "fontSize" 11
                ∷ css "letterSpacing" "2.8px"
                ∷ css "textTransform" "uppercase"
                ∷ word "color" color.gold_hot
                ∷ [])
              ∷ [])
            (lit "Notice" ∷ [])
          ∷ el "span"
              (styled (
                  px "fontSize" 12
                  ∷ css "letterSpacing" "1.2px"
                  ∷ word "color" color.gold_label
                  ∷ css "textWrap" "pretty"
                  ∷ [])
                ∷ [])
              (text notice ∷ [])
          ∷ [])

-- `notice ?? (unlit ? NO_WEBGL_NOTICE : null)`.
abbrev pub standing : Option Text → Bool → Option Text
standing (some notice) unlit = some notice
standing none true = some no_webgl_notice
standing none false = none

-- What is falsy shows no band: no notice, or an empty one.
abbrev pub band_of : {H : Type 0} → Option Text → List (Node H)
band_of none = []
band_of (some []) = []
band_of (some (c ∷ s)) = notice_band (c ∷ s) ∷ []

unfoldable pub notice_of : {H : Type 0} → Props → List (Node H)
notice_of props = band_of (standing props.notice props.unlit)

-- What the seal button reads.
unfoldable pub seal_label : Props → Text
seal_label props =
    if props.sealing
    then codes "Disbursing…"
    else if is_phase props.phase Phase.settling
    then codes "Settling…"
    else if is_phase props.phase Phase.pouring
    then codes "Stream open"
    else if is_phase props.phase Phase.settled
    then codes "Complete disbursement · " ++ rarity_name props.rarity
    else codes "Complete disbursement"

module _ {H : Type 0} (act : Gesture → H) where
  unfoldable pub seal_button : Props → Node H
  seal_button props =
      let settled = is_phase props.phase Phase.settled in
      let accent = (rarity_presentation props.rarity).accent in
      el "button"
        (a "type" "button"
          ∷ flag (codes "disabled") (not settled || props.sealing)
          ∷ on (codes "onClick") (act Gesture.sealed)
          ∷ styled (
              css "position" "relative"
              ∷ css "flex" "1 1 200px"
              ∷ px "minWidth" 0
              ∷ css "padding" "16px 12px"
              ∷ word "background" (
                  if settled
                  then codes "linear-gradient(180deg, rgba(245,214,122,.18), rgba(201,146,46,.08))"
                  else codes "transparent")
              ∷ word "border" (codes "1px solid " ++ (if settled then accent else color.rule_row))
              ∷ num "borderRadius" radius.button
              ∷ word "boxShadow"
                  (if settled then codes "0 0 30px -8px rgba(245,214,122,.45)" else codes "none")
              ∷ word "color" (if settled then color.gold_cream else color.gold_faint)
              ∷ word "fontFamily" font.instrument
              ∷ px "fontSize" 11
              ∷ css "letterSpacing" "3px"
              ∷ css "textTransform" "uppercase"
              ∷ word "cursor"
                  (if settled && not props.sealing then codes "pointer" else codes "not-allowed")
              ∷ css "transition" "background .3s, border-color .3s, color .3s, box-shadow .3s"
              ∷ [])
          ∷ [])
        (text (seal_label props) ∷ [])

  unfoldable pub discard_button : Node H
  discard_button =
      el "button"
        (a "type" "button"
          ∷ on (codes "onClick") (act Gesture.discarded)
          ∷ styled (
              css "padding" "17px 20px"
              ∷ css "background" "transparent"
              ∷ word "border" (codes "1px solid " ++ color.rule_stage)
              ∷ num "borderRadius" radius.button
              ∷ word "color" color.gold_label
              ∷ word "fontFamily" font.instrument
              ∷ px "fontSize" 11
              ∷ css "letterSpacing" "2.4px"
              ∷ css "textTransform" "uppercase"
              ∷ css "cursor" "pointer"
              ∷ [])
          ∷ [])
        (lit "Discard" ∷ [])

  unfoldable pub controls : Props → Node H
  controls props =
      el "div"
        (styled (
            css "display" "flex"
            ∷ px "gap" 12
            ∷ px "paddingBottom" 8
            ∷ css "flexWrap" "wrap"
            ∷ word "borderTop" (codes "1px solid " ++ color.rule_footer)
            ∷ px "paddingTop" 18
            ∷ [])
          ∷ [])
        (seal_button props ∷ [] ++ (if poured_of props then discard_button ∷ [] else []))

  unfoldable pub tier_card : Props → Node H
  tier_card props =
      el "div"
        (styled (
            css "display" "flex"
            ∷ css "flexDirection" "column"
            ∷ px "gap" 18
            ∷ css "padding" "20px 22px 22px"
            ∷ word "border" (codes "1px solid " ++ card_border)
            ∷ num "borderRadius" radius.panel
            ∷ word "background" card_ground
            ∷ [])
          ∷ [])
        (card_head props.phase (tier_at props.tier_index)
            ∷ spec_sheet
            ∷ classification (rarity_presentation props.rarity).accent
            ∷ []
          ++ notice_of props
          ++ controls props ∷ [])
