-- ===== src/Certificate/Frame.antt =====
-- app/certificate/Certificate.tsx: the ground, the rules and the corner ticks of the sheet.
use moltenpour.Prelude.{List, [], ◌∷◌, ◌++◌}
use moltenpour.Number.{Number, of_ℕ, ratio}
use moltenpour.Text.{Text, codes}
use moltenpour.Markup.{Node, word, css, px, num, el, styled, given}
use moltenpour.Design.{color, grain_url}
use moltenpour.Markup.{CssValue}

unfoldable pub page_w : Number
page_w = of_ℕ 794

unfoldable pub page_h : Number
page_h = of_ℕ 1123

unfoldable pub grain_overlay : {H : Type 0} → Node H
grain_overlay =
    el "div"
      (styled (
          css "position" "absolute"
          ∷ px "inset" 0
          ∷ css "pointerEvents" "none"
          ∷ num "opacity" (ratio 14 100)
          ∷ css "mixBlendMode" "overlay"
          ∷ word "backgroundImage" grain_url
          ∷ [])
        ∷ [])
      []

unfoldable pub vignette : {H : Type 0} → Node H
vignette =
    el "div"
      (styled (
          css "position" "absolute"
          ∷ px "inset" 0
          ∷ css "pointerEvents" "none"
          ∷ word "boxShadow" (codes "inset 0 0 120px 40px " ++ color.shade)
          ∷ [])
        ∷ [])
      []

unfoldable pub outer_rule : {H : Type 0} → Node H
outer_rule =
    el "div"
      (styled (
          css "position" "absolute"
          ∷ px "inset" 26
          ∷ css "pointerEvents" "none"
          ∷ word "border" (codes "1px solid " ++ color.rule_strong)
          ∷ [])
        ∷ [])
      []

unfoldable pub inner_rule : {H : Type 0} → Node H
inner_rule =
    el "div"
      (styled (
          css "position" "absolute"
          ∷ px "inset" 33
          ∷ css "pointerEvents" "none"
          ∷ word "border" (codes "1px solid " ++ color.rule_mid)
          ∷ [])
        ∷ [])
      []

-- Which edge of the sheet, and which side of the tick faces it.
pub data Vertical : Type 0 where
  top bottom : Vertical

pub data Horizontal : Type 0 where
  left right : Horizontal

unfoldable pub vertical_name : Vertical → Text
vertical_name Vertical.top = codes "top"
vertical_name Vertical.bottom = codes "bottom"

unfoldable pub horizontal_name : Horizontal → Text
horizontal_name Horizontal.left = codes "left"
horizontal_name Horizontal.right = codes "right"

unfoldable pub vertical_border : Vertical → Text
vertical_border Vertical.top = codes "borderTop"
vertical_border Vertical.bottom = codes "borderBottom"

unfoldable pub horizontal_border : Horizontal → Text
horizontal_border Horizontal.left = codes "borderLeft"
horizontal_border Horizontal.right = codes "borderRight"

unfoldable pub corners : List (Vertical × Horizontal)
corners =
    (Vertical.top, Horizontal.left)
    ∷ (Vertical.top, Horizontal.right)
    ∷ (Vertical.bottom, Horizontal.left)
    ∷ (Vertical.bottom, Horizontal.right)
    ∷ []

-- The callback of `CORNERS.map`.
unfoldable pub tick : {H : Type 0} → Vertical × Horizontal → Node H
tick (vertical, horizontal) =
    let edge = codes "1px solid " ++ color.tick in
    el "div"
      (given "data-corner-tick" (vertical_name vertical ++ codes "-" ++ horizontal_name horizontal)
        ∷ styled (
            css "position" "absolute"
            ∷ record { property = vertical_name vertical; value = CssValue.numeric (of_ℕ 40) }
            ∷ record { property = horizontal_name horizontal; value = CssValue.numeric (of_ℕ 40) }
            ∷ px "width" 15
            ∷ px "height" 15
            ∷ css "pointerEvents" "none"
            ∷ record { property = vertical_border vertical; value = CssValue.raw edge }
            ∷ record { property = horizontal_border horizontal; value = CssValue.raw edge }
            ∷ [])
        ∷ [])
      []
