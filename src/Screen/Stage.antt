-- ===== src/Screen/Stage.antt =====
-- app/ceremony/PourScreen.tsx: the markings on the stage.
use moltenpour.Prelude.{List, [], ◌∷◌, ◌++◌, map, Bool, if◌then◌else◌}
use moltenpour.Number.{Number, of_ℕ, ratio, ◌*ₙ◌}
use moltenpour.Text.{Text, codes, show, show_number}
use moltenpour.Rig.{max_blobs}
use moltenpour.Shell.{Phase}
use moltenpour.Markup.{Node, CssValue, text, word, css, px, num, el, lit, styled, a}
use moltenpour.Design.{color, radius, grain_url}
use moltenpour.Screen.Defs.{is_phase}
use moltenpour.Screen.Labels.{phase_label, graduations, label_11, stage_height}
use moltenpour.Certificate.{
  Vertical, Horizontal, vertical_name, horizontal_name, vertical_border, horizontal_border,
}

module _ {H : Type 0} where
  unfoldable pub callout_rule : Node H
  callout_rule =
      el "span"
        (styled (
            px "flex" 1
            ∷ px "height" 1
            ∷ css "background"
                "repeating-linear-gradient(90deg, rgba(245,214,122,.3) 0 3px, transparent 3px 8px)"
            ∷ [])
          ∷ [])
        []

  -- `Callout`.
  unfoldable pub callout : Text → Number → Bool → Node H
  callout label top rule_first =
      el "div"
        (a "aria-hidden" "true"
          ∷ styled (
              css "position" "absolute"
              ∷ px "left" 0
              ∷ px "right" 0
              ∷ word "top" (show_number (top *ₙ of_ℕ 100) ++ codes "%")
              ∷ css "pointerEvents" "none"
              ∷ css "display" "flex"
              ∷ css "alignItems" "center"
              ∷ px "gap" 8
              ∷ css "padding" "0 14px"
              ∷ [])
          ∷ [])
        ((if rule_first then callout_rule ∷ [] else [])
          ++ el "span"
              (styled (
                  px "fontSize" 11
                  ∷ css "letterSpacing" "2px"
                  ∷ css "textTransform" "uppercase"
                  ∷ css "color" "rgba(245,214,122,.72)"
                  ∷ css "whiteSpace" "nowrap"
                  ∷ [])
                ∷ [])
              (text label ∷ [])
            ∷ []
          ++ (if rule_first then [] else callout_rule ∷ []))

  unfoldable pub graduation : Text → Node H
  graduation g = el "span" [] (text g ∷ [])

  unfoldable pub graduation_column : Bool → Node H
  graduation_column wide =
      el "div"
        (a "aria-hidden" "true"
          ∷ styled (
              css "display" "flex"
              ∷ css "flexDirection" "column"
              ∷ css "justifyContent" "space-between"
              ∷ word "height" (stage_height wide)
              ∷ css "padding" "2px 0"
              ∷ px "fontSize" 11
              ∷ css "letterSpacing" "1.6px"
              ∷ word "color" color.gold_faint
              ∷ css "textAlign" "right"
              ∷ css "fontVariantNumeric" "tabular-nums"
              ∷ [])
          ∷ [])
        (map graduation graduations)

  unfoldable pub stage_grain : Node H
  stage_grain =
      el "div"
        (styled (
            css "position" "absolute"
            ∷ px "inset" 0
            ∷ css "pointerEvents" "none"
            ∷ num "opacity" (ratio 16 100)
            ∷ css "mixBlendMode" "overlay"
            ∷ word "backgroundImage" grain_url
            ∷ [])
          ∷ [])
        []

  unfoldable pub stage_shade : Node H
  stage_shade =
      el "div"
        (styled (
            css "position" "absolute"
            ∷ px "inset" 0
            ∷ css "pointerEvents" "none"
            ∷ css "boxShadow" "inset 0 0 100px 34px rgba(10,6,13,.8)"
            ∷ [])
          ∷ [])
        []

-- The corner that faces the stage's own.
unfoldable pub corner_radius : Vertical → Horizontal → Text
corner_radius Vertical.top Horizontal.left = codes "borderTopLeftRadius"
corner_radius Vertical.top Horizontal.right = codes "borderTopRightRadius"
corner_radius Vertical.bottom Horizontal.left = codes "borderBottomLeftRadius"
corner_radius Vertical.bottom Horizontal.right = codes "borderBottomRightRadius"

-- The two nested `map`s.
unfoldable pub stage_corners : List (Vertical × Horizontal)
stage_corners =
    (Vertical.top, Horizontal.left)
    ∷ (Vertical.top, Horizontal.right)
    ∷ (Vertical.bottom, Horizontal.left)
    ∷ (Vertical.bottom, Horizontal.right)
    ∷ []

module _ {H : Type 0} where
  unfoldable pub stage_corner : Vertical × Horizontal → Node H
  stage_corner (v, h) =
      let edge = codes "1px solid " ++ color.tick_stage in
      el "div"
        (a "aria-hidden" "true"
          ∷ styled (
              css "position" "absolute"
              ∷ record { property = vertical_name v; value = CssValue.numeric (of_ℕ 10) }
              ∷ record { property = horizontal_name h; value = CssValue.numeric (of_ℕ 10) }
              ∷ px "width" 14
              ∷ px "height" 14
              ∷ css "pointerEvents" "none"
              ∷ record { property = vertical_border v; value = CssValue.raw edge }
              ∷ record { property = horizontal_border h; value = CssValue.raw edge }
              ∷ record { property = corner_radius v h; value = CssValue.numeric (of_ℕ 4) }
              ∷ [])
          ∷ [])
        []

  unfoldable pub phase_band : Phase → Node H
  phase_band phase =
      el "div"
        (styled (
            css "position" "absolute"
            ∷ px "left" 0
            ∷ px "right" 0
            ∷ css "top" "46%"
            ∷ css "pointerEvents" "none"
            ∷ css "display" "flex"
            ∷ css "justifyContent" "center"
            ∷ num "opacity" (if is_phase phase Phase.settled then ratio 5 10 else of_ℕ 1)
            ∷ [])
          ∷ [])
        (el "span"
            (styled (
                css "padding" "8px 16px"
                ∷ num "borderRadius" radius.pill
                ∷ css "border" "1px solid rgba(245,214,122,.28)"
                ∷ css "background" "rgba(10,6,13,.55)"
                ∷ px "fontSize" 11
                ∷ css "letterSpacing" "3.4px"
                ∷ css "textTransform" "uppercase"
                ∷ word "color" color.gold_hot
                ∷ word "textShadow" (codes "0 0 20px " ++ color.shade_strong)
                ∷ css "whiteSpace" "nowrap"
                ∷ [])
              ∷ [])
            (text (phase_label phase) ∷ [])
          ∷ [])

  -- What the loop paints over from the first frame on.
  unfoldable pub readout_strip : Node H
  readout_strip =
      el "div"
        (styled (
            css "position" "absolute"
              ∷ px "left" 0
              ∷ px "right" 0
              ∷ px "bottom" 0
              ∷ css "pointerEvents" "none"
              ∷ css "display" "flex"
              ∷ css "justifyContent" "space-between"
              ∷ css "alignItems" "center"
              ∷ px "gap" 10
              ∷ css "padding" "16px 28px 14px"
              ∷ css "flexWrap" "wrap"
              ∷ []
            ++ label_11
            ++ css "letterSpacing" "1.8px"
              ∷ word "background"
                  (codes "linear-gradient(to top, " ++ color.shade_strong ++ codes ", transparent)")
              ∷ [])
          ∷ [])
        (el "span"
            (styled (css "whiteSpace" "nowrap" ∷ css "fontVariantNumeric" "tabular-nums" ∷ []) ∷ [])
            (lit "0.00 s" ∷ [])
          ∷ el "span"
              (styled (css "whiteSpace" "nowrap" ∷ css "fontVariantNumeric" "tabular-nums" ∷ [])
                ∷ [])
              (lit "0 drops · 0/" ∷ text (show max_blobs) ∷ [])
          ∷ [])
