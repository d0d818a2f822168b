-- ===== src/Screen/Band.antt =====
-- app/ceremony/PourScreen.tsx: the band of the classification, which the loop paints.
use moltenpour.Prelude.{[], ◌∷◌, ◌++◌, map}
use moltenpour.Number.{Number, of_ℕ, ratio, neg, ◌+ₙ◌, ◌/ₙ◌}
use moltenpour.Text.{Text, codes, show_number}
use moltenpour.Rarity.{thresholds}
use moltenpour.Markup.{Node, word, css, px, num, el, lit, styled, a}
use moltenpour.Design.{color}
use moltenpour.Screen.Labels.{label_11}

-- `${t / 10}%`.
unfoldable pub percent_of : Number → Text
percent_of t = show_number (t /ₙ of_ℕ 10) ++ codes "%"

module _ {H : Type 0} where
  unfoldable pub threshold_tick : Number → Node H
  threshold_tick t =
      el "span"
        (a "aria-hidden" "true"
          ∷ styled (
              css "position" "absolute"
              ∷ num "top" (neg (of_ℕ 3))
              ∷ num "bottom" (neg (of_ℕ 3))
              ∷ word "left" (percent_of t)
              ∷ px "width" 1
              ∷ word "background" color.rule_enabled
              ∷ [])
          ∷ [])
        []

  unfoldable pub classification_labels : Node H
  classification_labels =
      el "div"
        (a "className" "mp-classification-labels"
          ∷ styled (
              css "position" "relative"
              ∷ px "height" 14
              ∷ num "fontSize" (ratio 105 10)
              ∷ css "letterSpacing" "1.4px"
              ∷ css "textTransform" "uppercase"
              ∷ word "color" color.gold_faint
              ∷ [])
          ∷ [])
        (el "span"
            (styled (
                css "position" "absolute"
                ∷ px "left" 0
                ∷ px "top" 0
                ∷ css "whiteSpace" "nowrap"
                ∷ [])
              ∷ [])
            (lit "Common" ∷ [])
          ∷ el "span"
              (styled (
                  css "position" "absolute"
                  ∷ word "left" (percent_of thresholds.uncommon)
                  ∷ px "top" 0
                  ∷ css "transform" "translateX(-50%)"
                  ∷ css "whiteSpace" "nowrap"
                  ∷ [])
                ∷ [])
              (lit "Uncommon" ∷ [])
          ∷ el "span"
              (styled (
                  css "position" "absolute"
                  ∷ word "left" (percent_of ((thresholds.rare +ₙ thresholds.singular) /ₙ of_ℕ 2))
                  ∷ px "top" 0
                  ∷ css "transform" "translateX(-50%)"
                  ∷ css "whiteSpace" "nowrap"
                  ∷ [])
                ∷ [])
              (lit "Rare" ∷ [])
          ∷ el "span"
              (styled (
                  css "position" "absolute"
                  ∷ px "right" 0
                  ∷ px "top" 0
                  ∷ css "whiteSpace" "nowrap"
                  ∷ [])
                ∷ [])
              (lit "Singular" ∷ [])
          ∷ [])

  unfoldable pub classification : Text → Node H
  classification accent =
      el "div"
        (styled (
            css "display" "flex"
            ∷ css "flexDirection" "column"
            ∷ px "gap" 11
            ∷ word "borderTop" (codes "1px solid " ++ color.rule_footer)
            ∷ px "paddingTop" 18
            ∷ [])
          ∷ [])
        (el "div"
            (styled (
                css "display" "flex"
                  ∷ css "justifyContent" "space-between"
                  ∷ css "alignItems" "baseline"
                  ∷ []
                ++ label_11
                ++ css "letterSpacing" "2.2px" ∷ [])
              ∷ [])
            (el "span" [] (lit "Classification" ∷ [])
              ∷ el "span"
                  (styled
                      (css "fontVariantNumeric" "tabular-nums" ∷ word "color" color.gold_cream ∷ [])
                    ∷ [])
                  (lit "0 / 1000" ∷ [])
              ∷ [])
          ∷ el "div"
              (styled (
                  css "position" "relative"
                  ∷ px "height" 8
                  ∷ px "borderRadius" 4
                  ∷ css "background" "rgba(201,146,46,.1)"
                  ∷ [])
                ∷ [])
              (el "div"
                    (styled (
                        css "position" "absolute"
                        ∷ px "left" 0
                        ∷ px "top" 0
                        ∷ px "bottom" 0
                        ∷ px "width" 0
                        ∷ px "borderRadius" 4
                        ∷ word "background" (
                            codes "linear-gradient(90deg, "
                            ++ color.gold_label
                            ++ codes ", "
                            ++ accent
                            ++ codes ")")
                        ∷ css "boxShadow" "0 0 14px rgba(245,214,122,.4)"
                        ∷ [])
                      ∷ [])
                    []
                  ∷ []
                ++ map threshold_tick
                    (thresholds.uncommon ∷ thresholds.rare ∷ thresholds.singular ∷ []))
          ∷ classification_labels
          ∷ [])
