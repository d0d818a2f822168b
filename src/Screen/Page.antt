-- ===== src/Screen/Page.antt =====
-- app/ceremony/PourScreen.tsx: the whole ceremony.
use moltenpour.Prelude.{[], ◌∷◌, if◌then◌else◌}
use moltenpour.Text.{codes}
use moltenpour.Markup.{Node, word, css, px, el, styled}
use moltenpour.Screen.Labels.{Gesture}
use moltenpour.Screen.Vessel.{vessel}
use moltenpour.Screen.Schedule.{Props, schedule}
use moltenpour.Screen.Card.{tier_card}

module _ {H : Type 0} (act : Gesture → H) where
  unfoldable pub ledger : Props → Node H
  ledger props =
      el "div"
        (styled (
            css "display" "flex"
            ∷ css "flexDirection" "column"
            ∷ px "gap" 24
            ∷ px "minWidth" 0
            ∷ css "containerType" "inline-size"
            ∷ css "containerName" "ledger"
            ∷ [])
          ∷ [])
        (schedule act props ∷ tier_card act props ∷ [])

  -- The markup of `PourScreen`.
  unfoldable pub pour_screen : Props → Node H
  pour_screen props =
      el "div"
        (styled (
            css "display" "grid"
            ∷ css "gap" "clamp(26px, 3vw, 44px)"
            ∷ css "alignItems" "start"
            ∷ css "justifyContent" "center"
            ∷ word "gridTemplateColumns" (
                if props.wide
                then codes "minmax(0, auto) minmax(380px, 480px)"
                else codes "minmax(0, 1fr)")
            ∷ [])
          ∷ [])
        (vessel act props.wide props.phase ∷ ledger props ∷ [])
