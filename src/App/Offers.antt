-- ===== src/App/Offers.antt =====
-- What a user can do on the page, in each state of the shell.
use moltenpour.Prelude.{
  List, [], ◌∷◌, ◌++◌, map, Option, none, some, Bool, true, false, if◌then◌else◌, ◌≡◌, refl, ◌∙◌,
  append-nil,
}
use moltenpour.Number.{Number}
use moltenpour.Api.{text_eq}
use moltenpour.Record.{PourRecord}
use moltenpour.Markup.{Node, nodes, live, live_nodes, handlers_here, disabled}
use moltenpour.Design.{molten_background, column_rule}
use moltenpour.Gallery.{gallery}
use moltenpour.Gallery.Register.{gallery_register}
use moltenpour.Certificate.Quiet.{live-certificate_view}
use moltenpour.Certificate.{ViewAction, other_zoom}
use moltenpour.Screen.{Gesture, Props, pour_screen, poured_of}
use moltenpour.Screen.Offers.{stage_gestures, picks_from, offered_ends, rows_left, offers}
use moltenpour.Shell.{
  View, Shell, is_view, tab, column_ground, folio_rail, app_header, app_footer, sealing_overlay,
}
use moltenpour.App.Defs.{
  ShellAction, Surroundings, props_of, certificate_tab, tabs, shown_certificate, app_main,
  app_sheet, app,
}

offering : Unit {0}
unfolding live handlers_here disabled text_eq tab column_ground folio_rail app_header app_footer
    sealing_overlay certificate_tab tabs app_sheet app molten_background
offering = tt

-- What the ceremony offers.
abbrev pub ceremony_gestures : Props → List Gesture
ceremony_gestures props =
    stage_gestures
    ++ (if poured_of props then [] else picks_from (rows_left props.max_tier_index) 0)
    ++ offered_ends props

-- What the page offers below the tabs.
abbrev pub main_actions : Surroundings → Shell → View → Option PourRecord → List ShellAction
main_actions around s View.ceremony current =
    map ShellAction.gestured (ceremony_gestures (props_of around s))
main_actions around s View.collection current = map ShellAction.pour_chosen s.pours
main_actions around s View.certificate none = []
main_actions around s View.certificate (some pour) =
    ShellAction.view_used (ViewAction.zoom_set (other_zoom around.zoom))
    ∷ ShellAction.view_used ViewAction.printed
    ∷ []

abbrev pub tab_actions : Option PourRecord → List ShellAction
tab_actions none =
    ShellAction.tab_chosen View.ceremony ∷ ShellAction.tab_chosen View.collection ∷ []
tab_actions (some pour) =
    ShellAction.tab_chosen View.ceremony
    ∷ ShellAction.tab_chosen View.collection
    ∷ ShellAction.tab_chosen View.certificate
    ∷ []

module _ (cos sin : Number → Number) where
  certificate_tab_live :
      (view : View) (current : Option PourRecord)
      → ShellAction.tab_chosen View.ceremony
          ∷ ShellAction.tab_chosen View.collection
          ∷ live_nodes (nodes (certificate_tab cos sin view current))
        ≡ tab_actions current
  unfolding offering
  certificate_tab_live view none = refl
  certificate_tab_live view (some pour) = refl

  live-tabs : (s : Shell) → live (tabs cos sin s) ≡ tab_actions s.current
  unfolding offering
  live-tabs s = certificate_tab_live s.view s.current

  shown_live :
      (around : Surroundings) (s : Shell) (view : View) (current : Option PourRecord)
      → live_nodes (
          nodes (
            (if is_view view View.ceremony
              then pour_screen ShellAction.gestured (props_of around s) ∷ []
              else [])
            ++ (if is_view view View.collection
                then gallery cos sin around.wide ShellAction.pour_chosen current s.pours ∷ []
                else [])
            ++ shown_certificate cos sin around view current))
        ≡ main_actions around s view current
  unfolding offering shown_certificate
  shown_live around s View.ceremony current =
      append-nil _ ∙ offers ShellAction.gestured (props_of around s)
  shown_live around s View.collection current =
      append-nil _
      ∙ (gallery_register cos sin around.wide ShellAction.pour_chosen current s.pours).0
  shown_live around s View.certificate none = refl
  shown_live around s View.certificate (some pour) =
      append-nil _
      ∙ live-certificate_view ShellAction ShellAction.view_used cos sin around.zoom around.column_w
          pour

  around_page :
      (plain sealing : Bool) (page : Node ShellAction)
      → live_nodes (
          nodes (
            (if plain then [] else molten_background ∷ [])
            ++ column_ground column_rule ∷ page ∷ []
            ++ (if sealing then sealing_overlay ∷ [] else [])))
        ≡ live page
  unfolding offering
  around_page true true page = append-nil _
  around_page true false page = append-nil _
  around_page false true page = append-nil _
  around_page false false page = append-nil _

  live-app_main :
      (around : Surroundings) (s : Shell)
      → live (app_main cos sin around s) ≡ main_actions around s s.view s.current
  unfolding live handlers_here disabled app_main
  live-app_main around s = shown_live around s s.view s.current

  beside_rail :
      (wide : Bool) (s : Shell) (ns : List (Node ShellAction))
      → live_nodes (nodes ((if wide then folio_rail s.pours ∷ [] else []) ++ ns))
        ≡ live_nodes (nodes ns)
  unfolding offering
  beside_rail true s ns = refl
  beside_rail false s ns = refl

  live-app_sheet :
      (around : Surroundings) (s : Shell)
      → live (app_sheet cos sin around s)
        ≡ tab_actions s.current ++ main_actions around s s.view s.current
  unfolding live handlers_here disabled app_sheet app_header app_footer text_eq
  live-app_sheet around s =
      beside_rail around.wide s
        (app_header s ∷ tabs cos sin s ∷ app_main cos sin around s ∷ app_footer s ∷ [])
      ∙ rw (live-tabs s, live-app_main around s, append-nil)

  -- On the page, in every state of the shell, a user can open the ceremony and the collection,
  -- and the certificate exactly with a record to show; below the tabs the ceremony offers its
  -- gestures, the collection opens each of its pours in order, and the certificate offers the
  -- other zoom and the print; nothing else has a handler that can run.
  pub live-app :
      (around : Surroundings) (s : Shell)
      → live (app cos sin around s)
        ≡ tab_actions s.current ++ main_actions around s s.view s.current
  unfolding live handlers_here disabled app
  live-app around s =
      around_page (is_view s.view View.certificate) s.sealing (app_sheet cos sin around s)
      ∙ live-app_sheet around s
