-- ===== src/Certificate/View.antt =====
-- app/certificate/CertificateView.tsx: the sheet on screen, its toolbar and its scale. What the
-- wrapper measures comes in as a number; printing is the browser's.
use moltenpour.Prelude.{[], ◌∷◌, ◌++◌, true, if◌then◌else◌}
use Prim.Native.String.{String}
use moltenpour.Number.{Number, of_ℕ, ratio, round, floor, min, ◌*ₙ◌, ◌/ₙ◌, ◌<ₙ◌}
use moltenpour.Text.{Text, codes, show_number}
use moltenpour.Record.{PourRecord}
use moltenpour.Markup.{Node, on, text, word, css, px, num, el, lit, styled, a}
use moltenpour.Design.{color, font}
use moltenpour.Certificate.Frame.{page_w, page_h}
use moltenpour.Certificate.Sheet.{certificate}

pub data Zoom : Type 0 where
  fit full : Zoom

-- What the toolbar's buttons do.
pub data ViewAction : Type 0 where
  zoom_set : Zoom → ViewAction
  printed : ViewAction

-- `measure`: what becomes of the column's width when the host is this wide.
unfoldable pub measured : Number → Number → Number
measured client_width column_w = let w = round client_width in if of_ℕ 0 <ₙ w then w else column_w

unfoldable pub available_of : Number → Number
available_of column_w = if of_ℕ 0 <ₙ column_w then column_w else page_w

unfoldable pub scale_of : Zoom → Number → Number
scale_of Zoom.fit available = min (of_ℕ 1) (available /ₙ page_w)
scale_of Zoom.full available = of_ℕ 1

unfoldable pub shown_width : Zoom → Number → Number
shown_width Zoom.fit available = floor (page_w *ₙ scale_of Zoom.fit available)
shown_width Zoom.full available = available

unfoldable pub shown_height : Zoom → Number → Number
shown_height Zoom.fit available = floor (page_h *ₙ scale_of Zoom.fit available)
shown_height Zoom.full available = min page_h (round (available *ₙ ratio 1414 1000))

unfoldable pub overflow_of : Zoom → Text
overflow_of Zoom.fit = codes "hidden"
overflow_of Zoom.full = codes "auto"

abbrev pub other_zoom : Zoom → Zoom
other_zoom Zoom.fit = Zoom.full
other_zoom Zoom.full = Zoom.fit

abbrev zoom_label : Zoom → String
zoom_label Zoom.fit = "View at 100 %"
zoom_label Zoom.full = "Fit to page"

-- `ToolbarButton`.
unfoldable pub toolbar_button : {H : Type 0} → H → String → Node H
toolbar_button on_click children =
    el "button"
      (a "type" "button"
        ∷ on (codes "onClick") on_click
        ∷ styled (
            px "padding" 0
            ∷ css "background" "transparent"
            ∷ px "border" 0
            ∷ word "color" color.gold_body
            ∷ word "fontFamily" font.instrument
            ∷ px "fontSize" 11
            ∷ css "letterSpacing" "2.6px"
            ∷ css "textTransform" "uppercase"
            ∷ css "cursor" "pointer"
            ∷ [])
        ∷ [])
      (lit children ∷ [])

module _ {H : Type 0} (act : ViewAction → H) where
  unfoldable pub toolbar : Zoom → Number → Node H
  toolbar zoom scale =
      el "div"
        (a "className" "app-chrome"
          ∷ styled (
              css "display" "flex"
              ∷ css "justifyContent" "space-between"
              ∷ css "alignItems" "baseline"
              ∷ px "gap" 24
              ∷ css "width" "100%"
              ∷ px "fontSize" 11
              ∷ css "letterSpacing" "2.6px"
              ∷ css "textTransform" "uppercase"
              ∷ word "color" color.gold_label
              ∷ px "paddingBottom" 10
              ∷ word "borderBottom" (codes "1px solid " ++ color.rule_mid)
              ∷ [])
          ∷ [])
        (el "span" [] (
            lit "A4 · "
            ∷ text (show_number page_w)
            ∷ lit " × "
            ∷ text (show_number page_h)
            ∷ lit " · shown at "
            ∷ text (show_number (round (scale *ₙ of_ℕ 100)))
            ∷ lit " %"
            ∷ [])
          ∷ el "span" (styled (css "display" "flex" ∷ px "gap" 22 ∷ []) ∷ []) (
              toolbar_button (act (ViewAction.zoom_set (other_zoom zoom))) (zoom_label zoom)
              ∷ toolbar_button (act ViewAction.printed) "Print"
              ∷ [])
          ∷ [])

  -- The measured host and the box of the scaled sheet.
  unfoldable pub scale_box : Zoom → Number → Node H → Node H
  scale_box zoom available page =
      let scale = scale_of zoom available in
      el "div"
        (styled (css "width" "100%" ∷ css "display" "flex" ∷ css "justifyContent" "center" ∷ [])
          ∷ [])
        (el "div"
            (a "className" "print-root"
              ∷ styled (
                  num "width" (shown_width zoom available)
                  ∷ num "height" (shown_height zoom available)
                  ∷ word "overflow" (overflow_of zoom)
                  ∷ px "marginBottom" 26
                  ∷ [])
              ∷ [])
            (el "div"
                (a "className" "sheet-scale"
                  ∷ styled (
                      num "width" (page_w)
                      ∷ num "height" (page_h)
                      ∷ word "transform" (codes "scale(" ++ (show_number scale) ++ codes ")")
                      ∷ css "transformOrigin" "top left"
                      ∷ [])
                  ∷ [])
                (page ∷ [])
              ∷ [])
          ∷ [])

  unfoldable pub certificate_view :
      (cos sin : Number → Number) → Zoom → Number → PourRecord → Node H
  certificate_view cos sin zoom column_w pour =
      let available = available_of column_w in
      el "div"
        (styled (
            css "display" "flex"
            ∷ css "flexDirection" "column"
            ∷ px "gap" 14
            ∷ css "alignItems" "center"
            ∷ [])
          ∷ [])
        (toolbar zoom (scale_of zoom available)
          ∷ scale_box zoom available (certificate cos sin true pour)
          ∷ [])
