-- ===== src/Shell/Chrome.antt =====
-- app/App.tsx: the shell's head, its foot and its seal.
use moltenpour.Prelude.{[], ◌∷◌, ◌++◌}
use moltenpour.Number.{ratio}
use moltenpour.Text.{codes}
use moltenpour.Markup.{Node, text, word, css, px, num, el, lit, styled, a}
use moltenpour.Design.{color, font, radius, rarity_presentation}
use moltenpour.Shell.Defs.{Shell}
use moltenpour.Shell.Labels.{status_of, footer_hint}

-- What stands around the views.
module _ {H : Type 0} where
  unfoldable pub app_header : Shell → Node H
  app_header s =
      let accent = (rarity_presentation s.rarity).accent in
      el "header"
        (a "className" "app-chrome"
          ∷ styled (
              css "position" "relative"
              ∷ css "display" "flex"
              ∷ css "flexWrap" "wrap"
              ∷ css "alignItems" "flex-end"
              ∷ css "justifyContent" "space-between"
              ∷ css "gap" "16px 24px"
              ∷ word "borderBottom" (codes "1px solid " ++ color.rule_mid)
              ∷ px "paddingBottom" 18
              ∷ [])
          ∷ [])
        (el "div"
            (styled (
                css "display" "flex"
                ∷ css "flexDirection" "column"
                ∷ px "gap" 10
                ∷ px "minWidth" 0
                ∷ [])
              ∷ [])
            (el "span"
                (styled (
                    px "fontSize" 11
                    ∷ css "letterSpacing" "3.6px"
                    ∷ css "textTransform" "uppercase"
                    ∷ word "color" color.gold_label
                    ∷ [])
                  ∷ [])
                (lit "A schedule of disbursements, rendered in liquid" ∷ [])
              ∷ el "h1"
                  (styled (
                      px "margin" 0
                      ∷ word "fontFamily" font.display
                      ∷ px "fontWeight" 400
                      ∷ css "fontSize" "clamp(38px, 5.2vw, 62px)"
                      ∷ num "lineHeight" (ratio 92 100)
                      ∷ css "letterSpacing" "-1px"
                      ∷ word "color" color.gold_cream
                      ∷ word "textShadow" (codes "0 0 44px " ++ color.rule_active)
                      ∷ [])
                    ∷ [])
                  (lit "The Molten Pour" ∷ [])
              ∷ [])
          ∷ el "div"
              (styled (
                  css "display" "flex"
                  ∷ css "flexDirection" "column"
                  ∷ css "alignItems" "flex-end"
                  ∷ px "gap" 10
                  ∷ px "fontSize" 11
                  ∷ css "letterSpacing" "2.6px"
                  ∷ css "textTransform" "uppercase"
                  ∷ word "color" color.gold_label
                  ∷ css "whiteSpace" "nowrap"
                  ∷ [])
                ∷ [])
              (el "span"
                  (styled (
                      css "display" "flex"
                      ∷ css "alignItems" "center"
                      ∷ px "gap" 9
                      ∷ css "padding" "6px 12px 6px 8px"
                      ∷ word "border" (codes "1px solid " ++ color.rule_stage)
                      ∷ num "borderRadius" radius.pill
                      ∷ css "background" "rgba(22,11,26,.6)"
                      ∷ [])
                    ∷ [])
                  (el "span"
                      (styled (
                          css "position" "relative"
                          ∷ css "display" "flex"
                          ∷ css "alignItems" "center"
                          ∷ css "justifyContent" "center"
                          ∷ px "width" 14
                          ∷ px "height" 14
                          ∷ word "border" (codes "1px solid " ++ color.rule_active)
                          ∷ css "borderRadius" "50%"
                          ∷ [])
                        ∷ [])
                      (el "span"
                          (a "className" "mp-breathe"
                            ∷ styled (
                                px "width" 4
                                ∷ px "height" 4
                                ∷ css "borderRadius" "50%"
                                ∷ word "background" accent
                                ∷ [])
                            ∷ [])
                          []
                        ∷ [])
                    ∷ el "span" [] (text (status_of s) ∷ [])
                    ∷ [])
                ∷ el "span"
                    (styled (
                        word "fontFamily" font.display
                        ∷ css "fontStyle" "italic"
                        ∷ px "fontSize" 15
                        ∷ css "letterSpacing" ".5px"
                        ∷ css "textTransform" "none"
                        ∷ word "color" color.gold_faint
                        ∷ [])
                      ∷ [])
                    (lit "rev. vii — mmxxvi" ∷ [])
                ∷ [])
          ∷ [])

  unfoldable pub app_footer : Shell → Node H
  app_footer s =
      el "footer"
        (a "className" "app-chrome"
          ∷ styled (
              css "position" "relative"
              ∷ css "display" "flex"
              ∷ css "flexWrap" "wrap"
              ∷ css "justifyContent" "space-between"
              ∷ css "alignItems" "center"
              ∷ css "gap" "10px 20px"
              ∷ px "marginTop" 30
              ∷ css "padding" "14px 0 18px"
              ∷ word "borderTop" (codes "1px solid " ++ color.rule_footer)
              ∷ px "fontSize" 11
              ∷ css "letterSpacing" "2.4px"
              ∷ css "textTransform" "uppercase"
              ∷ word "color" color.gold_faint
              ∷ [])
          ∷ [])
        (el "span" [] (lit "All pours final · gratitude non-transferable" ∷ [])
          ∷ el "span" [] (text (footer_hint s) ∷ [])
          ∷ [])

  unfoldable pub sealing_overlay : Node H
  sealing_overlay =
      el "div"
        (a "className" "app-chrome"
          ∷ a "role" "status"
          ∷ styled (
              css "position" "fixed"
              ∷ px "inset" 0
              ∷ px "zIndex" 20
              ∷ word "background" color.shade_deep
              ∷ css "display" "flex"
              ∷ css "flexDirection" "column"
              ∷ css "alignItems" "center"
              ∷ css "justifyContent" "center"
              ∷ px "gap" 20
              ∷ [])
          ∷ [])
        (el "span"
            (a "className" "mp-rise"
              ∷ styled (
                  px "fontSize" 11
                  ∷ css "letterSpacing" "4.5px"
                  ∷ css "textTransform" "uppercase"
                  ∷ word "color" color.gold_label
                  ∷ [])
              ∷ [])
            (lit "Sealing the record" ∷ [])
          ∷ el "span"
              (styled (
                  css "position" "relative"
                  ∷ css "display" "block"
                  ∷ px "width" 230
                  ∷ px "height" 1
                  ∷ word "background" color.rule_row
                  ∷ css "overflow" "hidden"
                  ∷ [])
                ∷ [])
              (el "span"
                  (a "className" "mp-seal"
                    ∷ styled (
                        css "position" "absolute"
                        ∷ px "left" 0
                        ∷ px "top" 0
                        ∷ px "height" 1
                        ∷ word "background" color.gold_hot
                        ∷ [])
                    ∷ [])
                  []
                ∷ [])
          ∷ el "span"
              (a "className" "mp-rise"
                ∷ styled (
                    word "fontFamily" font.display
                    ∷ css "fontStyle" "italic"
                    ∷ px "fontSize" 26
                    ∷ css "letterSpacing" "1.5px"
                    ∷ word "color" color.gold_cream
                    ∷ [])
                ∷ [])
              (lit "non revertitur" ∷ [])
          ∷ [])
