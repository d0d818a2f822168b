-- ===== src/App/Defs.antt =====
-- app/App.tsx: the page, around the ceremony, the gallery or the certificate.
use moltenpour.Prelude.{List, [], ◌∷◌, ◌++◌, length, Option, none, some, Bool, if◌then◌else◌}
use moltenpour.Number.{Number}
use moltenpour.Text.{codes, show}
use moltenpour.Record.{PourRecord}
use moltenpour.Markup.{Node, text, word, css, px, el, lit, styled, a}
use moltenpour.Design.{color, font, app_ground, column_rule, molten_background}
use moltenpour.Gallery.{gallery}
use moltenpour.Certificate.{Zoom, ViewAction, certificate_view}
use moltenpour.Screen.{Gesture, Props, pour_screen}
use moltenpour.Shell.{
  View, Shell, is_view, tab, column_ground, folio_rail, app_header, app_footer, sealing_overlay,
}

-- What the handlers of the page stand for.
pub data ShellAction : Type 0 where
  tab_chosen : View → ShellAction
  pour_chosen : PourRecord → ShellAction
  gestured : Gesture → ShellAction
  view_used : ViewAction → ShellAction

-- What the page is drawn with beside the shell's state: the width of the window, whether the vessel is
-- without a picture, and the zoom and the column of the certificate's view.
pub record Surroundings : Type 0 where
  pub wide : Bool
  pub unlit : Bool
  pub zoom : Zoom
  pub column_w : Number

-- The props of `PourScreen`.
unfoldable pub props_of : Surroundings → Shell → Props
props_of around s = record {
  tier_index = s.tier_index;
  max_tier_index = s.max_tier_index;
  phase = s.phase;
  rarity = s.rarity;
  notice = s.notice;
  sealing = s.sealing;
  wide = around.wide;
  unlit = around.unlit;
}

module _ (cos sin : Number → Number) where
  -- The tab of the certificate, with a record to show.
  unfoldable pub certificate_tab : View → Option PourRecord → List (Node ShellAction)
  certificate_tab view none = []
  certificate_tab view (some pour) =
      tab (is_view view View.certificate) (ShellAction.tab_chosen View.certificate)
        (lit "The certificate" ∷ [])
      ∷ []

  unfoldable pub tabs : Shell → Node ShellAction
  tabs s =
      el "nav"
        (a "className" "app-chrome"
          ∷ styled (
              css "position" "relative"
              ∷ css "display" "flex"
              ∷ css "flexWrap" "wrap"
              ∷ px "gap" 6
              ∷ css "padding" "16px 0 0"
              ∷ [])
          ∷ [])
        ((tab (is_view s.view View.ceremony) (ShellAction.tab_chosen View.ceremony)
              (lit "The ceremony" ∷ []))
            ∷ (tab (is_view s.view View.collection) (ShellAction.tab_chosen View.collection)
                (lit "The collection · " ∷ text (show (length s.pours)) ∷ []))
            ∷ []
          ++ certificate_tab s.view s.current)

  -- `view === "certificate" && current`.
  unfoldable pub shown_certificate :
      Surroundings → View → Option PourRecord → List (Node ShellAction)
  shown_certificate around View.certificate (some pour) =
      certificate_view ShellAction.view_used cos sin around.zoom around.column_w pour ∷ []
  shown_certificate around view current = []

  unfoldable pub app_main : Surroundings → Shell → Node ShellAction
  app_main around s =
      el "main"
        (styled (css "position" "relative" ∷ css "paddingTop" "clamp(20px, 2.6vw, 32px)" ∷ []) ∷ [])
        ((if is_view s.view View.ceremony
            then pour_screen ShellAction.gestured (props_of around s) ∷ []
            else [])
          ++ (if is_view s.view View.collection
              then gallery cos sin around.wide ShellAction.pour_chosen s.current s.pours ∷ []
              else [])
          ++ shown_certificate around s.view s.current)

  unfoldable pub app_sheet : Surroundings → Shell → Node ShellAction
  app_sheet around s =
      el "div"
        (styled (
            px "maxWidth" 1360
            ∷ css "margin" "0 auto"
            ∷ css "width" "100%"
            ∷ css "boxSizing" "border-box"
            ∷ css "padding" "clamp(18px, 3vw, 30px) clamp(16px, 3vw, 34px) 0"
            ∷ css "display" "grid"
            ∷ css "gap" "0 clamp(16px, 2.4vw, 30px)"
            ∷ word "gridTemplateColumns"
                (if around.wide then codes "36px minmax(0, 1fr)" else codes "minmax(0, 1fr)")
            ∷ css "alignContent" "start"
            ∷ [])
          ∷ [])
        ((if around.wide then folio_rail s.pours ∷ [] else [])
          ++ app_header s ∷ tabs s ∷ app_main around s ∷ app_footer s ∷ [])

  -- The markup of `App`.
  unfoldable pub app : Surroundings → Shell → Node ShellAction
  app around s =
      el "div"
        (styled (
            css "position" "relative"
            ∷ css "minHeight" "100%"
            ∷ css "boxSizing" "border-box"
            ∷ word "background" app_ground
            ∷ word "color" color.gold_body
            ∷ word "fontFamily" font.instrument
            ∷ [])
          ∷ [])
        ((if is_view s.view View.certificate then [] else molten_background ∷ [])
          ++ column_ground column_rule ∷ app_sheet around s ∷ []
          ++ (if s.sealing then sealing_overlay ∷ [] else []))
