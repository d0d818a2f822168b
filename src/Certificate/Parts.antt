-- ===== src/Certificate/Parts.antt =====
-- app/certificate/Certificate.tsx: what is printed on the sheet, from the header strip to the footer.
use moltenpour.Prelude.{List, [], ◌∷◌, ◌++◌}
use moltenpour.Text.{Text, codes}
use moltenpour.Markup.{Declaration, Node, text, word, css, px, el, lit, styled, a}
use moltenpour.Design.{color, font, leader_rule, Presentation}
use moltenpour.Record.{PourRecord}

-- `LABEL`.
unfoldable pub label : List Declaration
label =
    px "fontSize" 12
    ∷ css "letterSpacing" "2.4px"
    ∷ css "textTransform" "uppercase"
    ∷ css "whiteSpace" "nowrap"
    ∷ px "margin" 0
    ∷ []

unfoldable pub header_strip : {H : Type 0} → Presentation → PourRecord → Node H
header_strip shown pour =
    el "header"
      (styled (
          css "display" "flex"
          ∷ css "justifyContent" "space-between"
          ∷ css "alignItems" "baseline"
          ∷ px "gap" 20
          ∷ px "fontSize" 12
          ∷ css "letterSpacing" "2.6px"
          ∷ css "textTransform" "uppercase"
          ∷ word "color" shown.secondary
          ∷ px "paddingBottom" 14
          ∷ word "borderBottom" (codes "1px solid " ++ color.rule)
          ∷ [])
        ∷ [])
      (el "span"
          (styled (
              px "minWidth" 0
              ∷ css "whiteSpace" "nowrap"
              ∷ css "overflow" "hidden"
              ∷ css "textOverflow" "ellipsis"
              ∷ [])
            ∷ [])
          (lit "Molten Pour · Office of Disbursement" ∷ [])
        ∷ el "span"
            (styled (css "fontVariantNumeric" "tabular-nums" ∷ css "whiteSpace" "nowrap" ∷ []) ∷ [])
            (text pour.serial ∷ [])
        ∷ [])

unfoldable pub title_block : {H : Type 0} → Presentation → Node H
title_block shown =
    el "div"
      (styled (
          css "display" "flex"
          ∷ css "flexDirection" "column"
          ∷ css "alignItems" "center"
          ∷ px "gap" 9
          ∷ px "paddingTop" 20
          ∷ [])
        ∷ [])
      (el "h1"
          (styled (
              px "margin" 0
              ∷ word "fontFamily" font.display
              ∷ px "fontWeight" 400
              ∷ px "fontSize" 34
              ∷ px "lineHeight" 1
              ∷ css "letterSpacing" "8px"
              ∷ css "textIndent" "8px"
              ∷ word "color" color.gold_cream
              ∷ css "textShadow" "0 0 40px rgba(201,146,46,.3)"
              ∷ [])
            ∷ [])
          (lit "CERTIFICATE OF WASTE" ∷ [])
        ∷ el "span"
            (styled (
                px "fontSize" 12
                ∷ css "letterSpacing" "3.4px"
                ∷ css "textTransform" "uppercase"
                ∷ word "color" color.gold_label
                ∷ css "textAlign" "center"
                ∷ [])
              ∷ [])
            (lit "Issued upon irreversible disbursement" ∷ [])
        ∷ el "div"
            (styled (
                css "display" "flex"
                ∷ css "alignItems" "center"
                ∷ px "gap" 14
                ∷ px "width" 290
                ∷ px "paddingTop" 6
                ∷ [])
              ∷ [])
            (el "span"
                (styled (
                    px "flex" 1
                    ∷ px "height" 1
                    ∷ word "background" (
                        codes "linear-gradient(90deg,transparent,"
                        ++ color.rule_enabled
                        ++ codes ")")
                    ∷ [])
                  ∷ [])
                []
              ∷ el "span"
                  (styled (
                      word "fontFamily" font.display
                      ∷ css "fontStyle" "italic"
                      ∷ px "fontSize" 17
                      ∷ css "letterSpacing" "2px"
                      ∷ word "color" shown.accent
                      ∷ css "whiteSpace" "nowrap"
                      ∷ [])
                    ∷ [])
                  (lit "non revertitur" ∷ [])
              ∷ el "span"
                  (styled (
                      px "flex" 1
                      ∷ px "height" 1
                      ∷ word "background" (
                          codes "linear-gradient(90deg,"
                          ++ color.rule_enabled
                          ++ codes ",transparent)")
                      ∷ [])
                    ∷ [])
                  []
              ∷ [])
        ∷ [])

-- A row of the ledger table.
unfoldable pub ledger_row : {H : Type 0} → Presentation → Text × Text → Node H
ledger_row shown (term, value) =
    el "div"
      (styled (
          css "display" "flex"
          ∷ css "alignItems" "baseline"
          ∷ px "gap" 16
          ∷ css "padding" "5px 2px 4px"
          ∷ word "borderBottom" (codes "1px solid " ++ color.rule_row)
          ∷ [])
        ∷ [])
      (el "dt" (styled (label ++ word "color" shown.secondary ∷ []) ∷ []) (text term ∷ [])
        ∷ el "span"
            (a "aria-hidden" "true"
              ∷ styled (px "flex" 1 ∷ px "height" 1 ∷ word "background" leader_rule ∷ [])
              ∷ [])
            []
        ∷ el "dd"
            (styled (
                px "margin" 0
                ∷ word "fontFamily" font.display
                ∷ px "fontSize" 17
                ∷ css "letterSpacing" ".4px"
                ∷ word "color" shown.accent
                ∷ css "fontVariantNumeric" "tabular-nums"
                ∷ css "whiteSpace" "nowrap"
                ∷ [])
              ∷ [])
            (text value ∷ [])
        ∷ [])

unfoldable pub inscription : {H : Type 0} → Node H
inscription =
    el "div"
      (styled
          (css "display" "flex" ∷ css "justifyContent" "center" ∷ css "padding" "16px 0 14px" ∷ [])
        ∷ [])
      (el "span"
          (styled (
              word "fontFamily" font.display
              ∷ css "fontStyle" "italic"
              ∷ px "fontSize" 22
              ∷ css "letterSpacing" "1.5px"
              ∷ word "color" color.gold_cream
              ∷ [])
            ∷ [])
          (lit "for nothing" ∷ [])
        ∷ [])

unfoldable pub footer : {H : Type 0} → Presentation → Node H
footer shown =
    el "footer"
      (styled (
          css "display" "flex"
          ∷ css "justifyContent" "space-between"
          ∷ css "alignItems" "flex-end"
          ∷ px "gap" 20
          ∷ px "paddingTop" 14
          ∷ word "borderTop" (codes "1px solid " ++ color.rule)
          ∷ px "fontSize" 12
          ∷ css "letterSpacing" "1.9px"
          ∷ css "textTransform" "uppercase"
          ∷ word "color" color.gold_label
          ∷ [])
        ∷ [])
      (el "span" (styled (css "maxWidth" "70%" ∷ []) ∷ [])
          (lit "This instrument confers no right, claim, or residual value." ∷ [])
        ∷ el "span"
            (styled (
                word "fontFamily" font.display
                ∷ css "fontStyle" "italic"
                ∷ px "fontSize" 14
                ∷ css "letterSpacing" ".5px"
                ∷ css "textTransform" "none"
                ∷ word "color" shown.secondary
                ∷ css "whiteSpace" "nowrap"
                ∷ [])
              ∷ [])
            (lit "rev. vii — mmxxvi" ∷ [])
        ∷ [])
