-- ===== src/Shell/Labels.antt =====
-- app/App.tsx: the shell's texts, its tab and its rail.
use moltenpour.Prelude.{List, [], ◌∷◌, ◌++◌, none, some, Bool, true, false, not, if◌then◌else◌}
use moltenpour.Number.{ratio}
use moltenpour.Number.UpTo.{nat}
use moltenpour.Text.{Text, codes, grouped}
use moltenpour.Record.{PourRecord}
use moltenpour.Markup.{Node, optional, on, text, word, css, px, num, el, lit, styled, a}
use moltenpour.Design.{color, font, radius}
use moltenpour.Shell.Defs.{View, Phase, Shell}

unfoldable pub status_line : Phase → Text
status_line Phase.idle = codes "Live · vessel ready"
status_line Phase.pouring = codes "Live · stream open"
status_line Phase.settling = codes "Live · settling"
status_line Phase.settled = codes "Live · stream closed"

-- `===` of views.
abbrev pub is_view : View → View → Bool
is_view View.ceremony View.ceremony = true
is_view View.collection View.collection = true
is_view View.certificate View.certificate = true
is_view v w = false

-- What the lamp reads.
unfoldable pub status_of : Shell → Text
status_of s =
    if is_view s.view View.ceremony then status_line s.phase else codes "Live · register open"

-- `phase !== "idle"`.
unfoldable pub is_poured : Phase → Bool
is_poured Phase.idle = false
is_poured phase = true

unfoldable pub footer_hint : Shell → Text
footer_hint s =
    if not (is_view s.view View.ceremony)
    then codes "All disbursements are irreversible"
    else if is_poured s.phase
    then codes "Release to settle · discard to begin again"
    else codes "↑ ↓ traverse tiers · hold the vessel to pour"

-- The first pour's position, which is a whole number.
unfoldable pub folio_of : List PourRecord → Text
folio_of [] = codes "—"
folio_of (p ∷ ps) = grouped (nat p.ledger_position)

module _ {H : Type 0} where
  -- `Tab`.
  unfoldable pub tab : Bool → H → List (Node H) → Node H
  tab active on_click children =
      el "button"
        (a "type" "button"
          ∷ on (codes "onClick") on_click
          ∷ optional (codes "aria-current") (if active then some (codes "page") else none)
          ∷ styled (
              css "padding" "9px 16px"
              ∷ num "borderRadius" radius.tab
              ∷ word "border" (
                  codes "1px solid "
                  ++ (if active
                      then codes "rgba(245,214,122,.4)"
                      else codes "rgba(201,146,46,.14)"))
              ∷ word "background"
                  (if active then codes "rgba(201,146,46,.12)" else codes "transparent")
              ∷ word "color" (if active then color.gold_cream else color.gold_label)
              ∷ word "fontFamily" font.instrument
              ∷ px "fontSize" 11
              ∷ css "letterSpacing" "3px"
              ∷ css "textTransform" "uppercase"
              ∷ css "cursor" "pointer"
              ∷ css "transition" "background .2s, color .2s, border-color .2s"
              ∷ [])
          ∷ [])
        children

  unfoldable pub column_ground : Text → Node H
  column_ground column_rule =
      el "div"
        (styled (
            css "position" "absolute"
            ∷ px "inset" 0
            ∷ css "pointerEvents" "none"
            ∷ num "opacity" (ratio 5 10)
            ∷ word "backgroundImage" column_rule
            ∷ [])
          ∷ [])
        []

  unfoldable pub folio_rail : List PourRecord → Node H
  folio_rail pours =
      el "aside"
        (a "className" "app-chrome"
          ∷ a "aria-hidden" "true"
          ∷ styled (
              css "position" "relative"
              ∷ css "gridRow" "1 / span 4"
              ∷ css "display" "flex"
              ∷ css "flexDirection" "column"
              ∷ css "alignItems" "center"
              ∷ css "justifyContent" "space-between"
              ∷ px "paddingBottom" 26
              ∷ word "borderRight" (codes "1px solid " ++ color.rule_rail)
              ∷ [])
          ∷ [])
        (el "span"
            (styled (
                css "writingMode" "vertical-rl"
                ∷ px "fontSize" 11
                ∷ css "letterSpacing" "4.5px"
                ∷ css "textTransform" "uppercase"
                ∷ word "color" color.gold_label
                ∷ css "whiteSpace" "nowrap"
                ∷ [])
              ∷ [])
            (lit "Office of Disbursement · Folio " ∷ text (folio_of pours) ∷ [])
          ∷ el "span"
              (styled (
                  css "writingMode" "vertical-rl"
                  ∷ word "fontFamily" font.display
                  ∷ css "fontStyle" "italic"
                  ∷ px "fontSize" 14
                  ∷ css "letterSpacing" "1px"
                  ∷ word "color" color.gold_faint
                  ∷ css "whiteSpace" "nowrap"
                  ∷ [])
                ∷ [])
              (lit "non revertitur" ∷ [])
          ∷ [])
