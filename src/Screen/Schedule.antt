-- ===== src/Screen/Schedule.antt =====
-- app/ceremony/PourScreen.tsx: the schedule of tiers.
use moltenpour.Prelude.{
  ◌+◌, [], ◌∷◌, ◌++◌, map, Option, none, some, Bool, not, ◌&&◌, ◌||◌, if◌then◌else◌,
}
use moltenpour.Number.{Number, of_ℕ, ratio, ◌*ₙ◌, ◌<ₙ◌, ◌<=ₙ◌}
use moltenpour.Text.{Text, codes, show, show_number, pad_start}
use moltenpour.Api.{rarity_name}
use moltenpour.Rarity.{Rarity}
use moltenpour.Tiers.{Tier, tiers, format_consideration, reachable_rarity}
use moltenpour.Shell.{Phase}
use moltenpour.Markup.{Node, flag, optional, on, text, word, css, px, num, el, lit, styled, a}
use moltenpour.Design.{color, font, radius, card_border, card_ground, card_shadow}
use moltenpour.Screen.Defs.{is_phase}
use moltenpour.Screen.Labels.{Gesture, row_h, label_11}

-- The props that the markup reads, and whether the vessel is without a picture.
pub record Props : Type 0 where
  pub tier_index : Number
  pub max_tier_index : Number
  pub phase : Phase
  pub rarity : Rarity
  pub notice : Option Text
  pub sealing : Bool
  pub wide : Bool
  pub unlit : Bool

-- `phase !== "idle"`.
unfoldable pub poured_of : Props → Bool
poured_of props = not (is_phase props.phase Phase.idle)

-- `t.index === tierIndex`.
unfoldable pub is_selected : Props → Tier → Bool
is_selected props t = of_ℕ t.index <=ₙ props.tier_index && props.tier_index <=ₙ of_ℕ t.index

-- `t.index > maxTierIndex`.
unfoldable pub is_withdrawn : Props → Tier → Bool
is_withdrawn props t = props.max_tier_index <ₙ of_ℕ t.index

module _ {H : Type 0} where
  unfoldable pub schedule_head : Node H
  schedule_head =
      el "div"
        (styled (
            css "display" "flex"
              ∷ css "justifyContent" "space-between"
              ∷ css "alignItems" "baseline"
              ∷ []
            ++ label_11
            ++ css "letterSpacing" "3.2px"
              ∷ css "padding" "0 12px 12px"
              ∷ word "borderBottom" (codes "1px solid " ++ color.rule_disabled)
              ∷ [])
          ∷ [])
        (el "span" [] (lit "Tier" ∷ []) ∷ el "span" [] (lit "Consideration" ∷ []) ∷ [])

  unfoldable pub marker : Number → Node H
  marker tier_index =
      el "div"
        (styled (
            css "position" "absolute"
            ∷ px "left" 0
            ∷ px "right" 0
            ∷ px "top" 6
            ∷ num "height" (row_h)
            ∷ css "pointerEvents" "none"
            ∷ num "borderRadius" radius.row
            ∷ css "background"
                "linear-gradient(90deg, rgba(201,146,46,.2), rgba(201,146,46,.04) 75%)"
            ∷ css "boxShadow"
                "inset 0 0 0 1px rgba(245,214,122,.28), 0 0 26px -6px rgba(245,214,122,.3)"
            ∷ word "transform"
                (codes "translateY(" ++ show_number (tier_index *ₙ row_h) ++ codes "px)")
            ∷ css "transition" "transform .45s cubic-bezier(.22,1,.36,1)"
            ∷ [])
          ∷ [])
        []

  -- The callback of `TIERS.map`.
  unfoldable pub tier_row : (Gesture → H) → Props → Tier → Node H
  tier_row act props t =
      let poured = poured_of props in
      let selected = is_selected props t in
      let withdrawn = is_withdrawn props t in
      el "button"
        (a "type" "button"
          ∷ a "className" "mp-tier-row"
          ∷ flag (codes "disabled") (poured || withdrawn)
          ∷ optional (codes "aria-disabled") (if withdrawn then some (codes "true") else none)
          ∷ on (codes "onClick") (act (Gesture.tier_picked t.index))
          ∷ styled (
              css "position" "relative"
              ∷ css "display" "flex"
              ∷ css "width" "100%"
              ∷ num "height" (row_h)
              ∷ css "alignItems" "center"
              ∷ px "gap" 12
              ∷ css "padding" "0 12px"
              ∷ css "background" "transparent"
              ∷ px "border" 0
              ∷ num "borderRadius" radius.row
              ∷ word "color" (if selected then color.gold_cream else color.gold_label)
              ∷ word "fontFamily" font.instrument
              ∷ css "textAlign" "left"
              ∷ word "cursor" (if poured || withdrawn then codes "not-allowed" else codes "pointer")
              ∷ num "opacity" (
                  if withdrawn
                  then ratio 3 10
                  else if poured && not selected
                  then ratio 35 100
                  else of_ℕ 1)
              ∷ css "transition" "color .2s, opacity .3s"
              ∷ [])
          ∷ [])
        (el "span"
            (styled (
                px "fontSize" 11
                ∷ css "letterSpacing" "1.6px"
                ∷ word "color" color.gold_faint
                ∷ css "fontVariantNumeric" "tabular-nums"
                ∷ [])
              ∷ [])
            (text (pad_start 2 b'0' (show (t.index + 1))) ∷ [])
          ∷ el "span"
              (styled (
                  px "fontSize" 12
                  ∷ css "letterSpacing" "2.8px"
                  ∷ css "textTransform" "uppercase"
                  ∷ css "whiteSpace" "nowrap"
                  ∷ [])
                ∷ [])
              (text t.name ∷ [])
          ∷ el "span"
              (a "aria-hidden" "true"
                ∷ styled (
                    px "flex" 1
                    ∷ px "minWidth" 12
                    ∷ px "height" 1
                    ∷ css "pointerEvents" "none"
                    ∷ word "background" (
                        codes "repeating-linear-gradient(90deg, "
                        ++ color.rule_active
                        ++ codes " 0 1px, transparent 1px 5px)")
                    ∷ [])
                ∷ [])
              []
          ∷ el "span"
              (styled (
                  num "fontSize" (ratio 105 10)
                  ∷ css "letterSpacing" "1.4px"
                  ∷ css "textTransform" "uppercase"
                  ∷ word "color" color.gold_faint
                  ∷ css "whiteSpace" "nowrap"
                  ∷ css "padding" "3px 7px"
                  ∷ word "border" (codes "1px solid " ++ color.rule_row)
                  ∷ num "borderRadius" radius.chip
                  ∷ [])
                ∷ [])
              (lit "to " ∷ text (rarity_name (reachable_rarity (of_ℕ t.index))) ∷ [])
          ∷ el "span"
              (styled (
                  word "fontFamily" font.display
                  ∷ px "fontSize" 17
                  ∷ css "letterSpacing" ".2px"
                  ∷ css "fontVariantNumeric" "tabular-nums"
                  ∷ css "whiteSpace" "nowrap"
                  ∷ px "minWidth" 76
                  ∷ css "textAlign" "right"
                  ∷ [])
                ∷ [])
              (text (if withdrawn then codes "Withdrawn" else format_consideration t.amount_cents)
                ∷ [])
          ∷ [])

  unfoldable pub schedule : (Gesture → H) → Props → Node H
  schedule act props =
      el "div"
        (styled (
            css "padding" "16px 16px 10px"
            ∷ word "border" (codes "1px solid " ++ card_border)
            ∷ num "borderRadius" radius.panel
            ∷ word "background" card_ground
            ∷ word "boxShadow" card_shadow
            ∷ [])
          ∷ [])
        (schedule_head
          ∷ el "div" (styled (css "position" "relative" ∷ px "paddingTop" 6 ∷ []) ∷ [])
              (marker props.tier_index ∷ [] ++ map (tier_row act props) tiers)
          ∷ [])
