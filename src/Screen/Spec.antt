-- ===== src/Screen/Spec.antt =====
-- app/ceremony/PourScreen.tsx: the head of the card, and the rows of its readout.
use moltenpour.Prelude.{[], ◌∷◌, ◌++◌, map}
use moltenpour.Number.{ratio}
use moltenpour.Text.{Text, codes}
use moltenpour.Tiers.{Tier, format_consideration}
use moltenpour.Shell.{Phase}
use moltenpour.Markup.{Node, text, word, css, px, num, el, lit, styled}
use moltenpour.Design.{color, font}
use moltenpour.Screen.Labels.{now_label, spec_rows, label_11}

module _ {H : Type 0} where
  unfoldable pub card_head : Phase → Tier → Node H
  card_head phase tier =
      el "div"
        (styled (css "display" "flex" ∷ css "flexDirection" "column" ∷ px "gap" 14 ∷ []) ∷ [])
        (el "span" (styled (label_11 ++ css "letterSpacing" "3.2px" ∷ []) ∷ [])
            (text (now_label phase) ∷ [])
          ∷ el "div"
              (styled (
                  css "display" "flex"
                  ∷ css "alignItems" "baseline"
                  ∷ css "flexWrap" "wrap"
                  ∷ css "justifyContent" "space-between"
                  ∷ px "gap" 16
                  ∷ [])
                ∷ [])
              (el "span"
                  (styled (
                      word "fontFamily" font.display
                      ∷ css "fontSize" "clamp(30px, 3.4vw, 42px)"
                      ∷ num "lineHeight" (ratio 92 100)
                      ∷ word "color" color.gold_cream
                      ∷ [])
                    ∷ [])
                  (text tier.name ∷ [])
                ∷ el "span"
                    (styled (
                        word "fontFamily" font.display
                        ∷ css "fontSize" "clamp(30px, 3.4vw, 42px)"
                        ∷ num "lineHeight" (ratio 92 100)
                        ∷ word "color" color.bronze
                        ∷ css "fontVariantNumeric" "tabular-nums"
                        ∷ [])
                      ∷ [])
                    (text (format_consideration tier.amount_cents) ∷ [])
                ∷ [])
          ∷ el "p"
              (styled (
                  px "margin" 0
                  ∷ word "fontFamily" font.display
                  ∷ css "fontStyle" "italic"
                  ∷ px "fontSize" 17
                  ∷ num "lineHeight" (ratio 145 100)
                  ∷ word "color" color.gold_label
                  ∷ css "textWrap" "pretty"
                  ∷ [])
                ∷ [])
              (text tier.note ∷ [])
          ∷ [])

  -- The callback of `SPEC_ROWS.map`; its bar and value are painted by the loop.
  unfoldable pub spec_row : Text → Node H
  spec_row label =
      el "div"
        (styled (
            css "display" "grid"
            ∷ css "gridTemplateColumns" "104px 1fr 56px"
            ∷ css "alignItems" "center"
            ∷ px "gap" 12
            ∷ [])
          ∷ [])
        (el "span" (styled (label_11 ++ css "letterSpacing" "2.2px" ∷ []) ∷ []) (text label ∷ [])
          ∷ el "span"
              (styled (
                  css "position" "relative"
                  ∷ css "display" "block"
                  ∷ px "height" 6
                  ∷ px "borderRadius" 3
                  ∷ css "background" "rgba(201,146,46,.1)"
                  ∷ css "overflow" "hidden"
                  ∷ [])
                ∷ [])
              (el "span"
                  (styled (
                      css "position" "absolute"
                      ∷ px "left" 0
                      ∷ px "top" 0
                      ∷ px "bottom" 0
                      ∷ px "width" 0
                      ∷ px "borderRadius" 3
                      ∷ word "background" (
                          codes "linear-gradient(90deg, "
                          ++ color.gold_label
                          ++ codes ", "
                          ++ color.gold_hot
                          ++ codes ")")
                      ∷ css "boxShadow" "0 0 12px rgba(245,214,122,.45)"
                      ∷ [])
                    ∷ [])
                  []
                ∷ [])
          ∷ el "span"
              (styled (
                  px "fontSize" 11
                  ∷ css "letterSpacing" "1.2px"
                  ∷ word "color" color.gold_body
                  ∷ css "fontVariantNumeric" "tabular-nums"
                  ∷ css "textAlign" "right"
                  ∷ [])
                ∷ [])
              (lit "0" ∷ [])
          ∷ [])

  unfoldable pub spec_sheet : Node H
  spec_sheet =
      el "div"
        (styled (
            css "display" "flex"
            ∷ css "flexDirection" "column"
            ∷ px "gap" 13
            ∷ word "borderTop" (codes "1px solid " ++ color.rule_footer)
            ∷ px "paddingTop" 18
            ∷ [])
          ∷ [])
        (map spec_row spec_rows)
