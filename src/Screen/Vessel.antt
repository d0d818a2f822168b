-- ===== src/Screen/Vessel.antt =====
-- app/ceremony/PourScreen.tsx: the vessel.
use moltenpour.Prelude.{[], ◌∷◌, ◌++◌, map, Bool, true, false, if◌then◌else◌}
use moltenpour.Number.{of_ℕ}
use moltenpour.Text.{codes}
use moltenpour.Rig.{spout_y, floor_y}
use moltenpour.Shell.{Phase}
use moltenpour.Markup.{Node, count, flag, on, word, css, px, num, el, styled, a}
use moltenpour.Design.{color, radius, card_border, card_ground, card_shadow}
use moltenpour.Screen.Defs.{is_phase}
use moltenpour.Screen.Labels.{Gesture, stage_height}
use moltenpour.Screen.Stage.{
  callout, graduation_column, stage_grain, stage_shade, stage_corner, stage_corners, phase_band,
  readout_strip,
}

-- The stage and what stands beside it.
module _ {H : Type 0} where
  unfoldable pub stage : (Gesture → H) → Bool → Phase → Node H
  stage act wide phase =
      el "div"
        (a "role" "button"
          ∷ count (codes "tabIndex") (of_ℕ 0)
          ∷ a "aria-label" "Hold to pour"
          ∷ flag (codes "aria-pressed") (is_phase phase Phase.pouring)
          ∷ on (codes "onPointerDown") (act Gesture.pressed)
          ∷ on (codes "onPointerUp") (act Gesture.released)
          ∷ on (codes "onPointerLeave") (act Gesture.released)
          ∷ on (codes "onPointerCancel") (act Gesture.released)
          ∷ on (codes "onPointerMove") (act Gesture.moved)
          ∷ on (codes "onKeyDown") (act Gesture.key_pressed)
          ∷ on (codes "onKeyUp") (act Gesture.key_released)
          ∷ styled (
              css "position" "relative"
              ∷ css "aspectRatio" "9 / 16"
              ∷ word "height" (stage_height wide)
              ∷ css "width" "auto"
              ∷ px "minWidth" 0
              ∷ css "maxWidth" "100%"
              ∷ word "background" color.panel
              ∷ word "border" (
                  codes "1px solid "
                  ++ (if is_phase phase Phase.pouring then color.tick_stage else color.rule_stage))
              ∷ num "borderRadius" radius.stage
              ∷ css "boxShadow" "inset 0 0 0 1px rgba(12,7,15,.9)"
              ∷ css "overflow" "hidden"
              ∷ css "touchAction" "none"
              ∷ css "userSelect" "none"
              ∷ word "cursor"
                  (if is_phase phase Phase.settled then codes "default" else codes "pointer")
              ∷ css "transition" "border-color .4s linear"
              ∷ [])
          ∷ [])
        (el "canvas"
              (styled (css "display" "block" ∷ css "width" "100%" ∷ css "height" "100%" ∷ []) ∷ [])
              []
            ∷ stage_grain
            ∷ stage_shade
            ∷ callout (codes "Spout") spout_y true
            ∷ callout (codes "Pool line") floor_y false
            ∷ []
          ++ map stage_corner stage_corners
          ++ phase_band phase ∷ readout_strip ∷ [])

  unfoldable pub vessel : (Gesture → H) → Bool → Phase → Node H
  vessel act wide phase =
      el "div"
        (styled (
            css "position" "relative"
            ∷ css "justifySelf" "center"
            ∷ css "display" "flex"
            ∷ css "alignItems" "stretch"
            ∷ px "gap" 14
            ∷ px "minWidth" 0
            ∷ css "maxWidth" "100%"
            ∷ css "boxSizing" "border-box"
            ∷ css "padding" "18px 18px 18px 14px"
            ∷ word "border" (codes "1px solid " ++ card_border)
            ∷ num "borderRadius" radius.panel
            ∷ word "background" card_ground
            ∷ word "boxShadow" (card_shadow ++ codes ", 0 0 140px 0 rgba(201,146,46,.06)")
            ∷ [])
          ∷ [])
        (graduation_column wide ∷ stage act wide phase ∷ [])
