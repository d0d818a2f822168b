-- ===== src/Gallery/Head.antt =====
-- app/collection/Gallery.tsx: the head of the register, and the register without a pour.
use moltenpour.Prelude.{List, [], ◌∷◌, ◌++◌, Option, none, some, Bool, false}
use moltenpour.Number.{Number, of_ℕ, ◌+ₙ◌}
use moltenpour.Text.{codes}
use moltenpour.Api.{text_eq}
use moltenpour.Tiers.{format_usd}
use moltenpour.Record.{PourRecord}
use moltenpour.Markup.{Node, text, word, css, px, num, el, lit, styled, a}
use moltenpour.Design.{color, font, radius}

-- The `reduce` of the amounts, from a sum on.
unfoldable pub sum_cents : Number → List PourRecord → Number
sum_cents sum [] = sum
sum_cents sum (p ∷ ps) = sum_cents (sum +ₙ p.amount_cents) ps

unfoldable pub total_cents : List PourRecord → Number
total_cents pours = sum_cents (of_ℕ 0) pours

-- `current?.id === p.id`.
unfoldable pub is_open : Option PourRecord → PourRecord → Bool
is_open none p = false
is_open (some current) p = text_eq current.id p.id

unfoldable pub register_head : {H : Type 0} → Number → Node H
register_head total_cents =
    el "div"
      (styled (
          css "display" "flex"
          ∷ css "flexWrap" "wrap"
          ∷ css "justifyContent" "space-between"
          ∷ css "alignItems" "baseline"
          ∷ css "gap" "10px 20px"
          ∷ px "fontSize" 11
          ∷ css "letterSpacing" "3.2px"
          ∷ css "textTransform" "uppercase"
          ∷ word "color" color.gold_label
          ∷ px "paddingBottom" 12
          ∷ word "borderBottom" (codes "1px solid " ++ color.rule_mid)
          ∷ [])
        ∷ [])
      (el "span" [] (lit "Disbursements on record" ∷ [])
        ∷ el "span" (styled (css "fontVariantNumeric" "tabular-nums" ∷ []) ∷ [])
            (text (format_usd total_cents) ∷ lit " rendered irrecoverable" ∷ [])
        ∷ [])

unfoldable pub empty_register : {H : Type 0} → Node H
empty_register =
    el "div"
      (a "role" "status"
        ∷ styled (
            css "display" "flex"
            ∷ css "flexDirection" "column"
            ∷ css "alignItems" "center"
            ∷ px "gap" 16
            ∷ css "padding" "80px 20px"
            ∷ word "border" (codes "1px dashed rgba(201,146,46,.24)")
            ∷ num "borderRadius" radius.panel
            ∷ css "background" "rgba(22,11,26,.4)"
            ∷ [])
        ∷ [])
      (el "span"
          (a "aria-hidden" "true"
            ∷ styled (
                px "width" 44
                ∷ px "height" 44
                ∷ word "border" (codes "1px solid " ++ color.leader)
                ∷ px "borderRadius" 8
                ∷ css "background"
                    "repeating-linear-gradient(135deg, transparent 0 5px, rgba(201,146,46,.14) 5px 6px)"
                ∷ [])
            ∷ [])
          []
        ∷ el "span"
            (styled (
                px "fontSize" 11
                ∷ css "letterSpacing" "3.2px"
                ∷ css "textTransform" "uppercase"
                ∷ word "color" color.gold_label
                ∷ css "textAlign" "center"
                ∷ [])
              ∷ [])
            (lit "The register is open and empty" ∷ [])
        ∷ el "span"
            (styled (
                word "fontFamily" font.display
                ∷ css "fontStyle" "italic"
                ∷ px "fontSize" 22
                ∷ css "letterSpacing" ".6px"
                ∷ word "color" color.gold_faint
                ∷ css "textAlign" "center"
                ∷ css "textWrap" "pretty"
                ∷ [])
              ∷ [])
            (lit "nothing has yet been given for nothing" ∷ [])
        ∷ [])
