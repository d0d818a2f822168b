-- ===== src/Sigil/Svg.antt =====
-- app/sigil/SigilSvg.tsx: the geometry of a sigil as markup.
use moltenpour.Prelude.{ℕ, [], ◌∷◌, ◌++◌, map}
use moltenpour.Number.{Number}
use moltenpour.Text.{Text, codes, show}
use moltenpour.Markup.{Node, word, css, el, styled, a, given}
use moltenpour.Design.{color}
use moltenpour.Sigil.Geometry.{Tendril, Satellite, SigilGeometry, generate_sigil}

unfoldable pub tendril_line : {H : Type 0} → Text → Tendril → Node H
tendril_line secondary t =
    el "line"
      (given "x1" t.x1
        ∷ given "y1" t.y1
        ∷ given "x2" t.x2
        ∷ given "y2" t.y2
        ∷ given "stroke" secondary
        ∷ given "strokeOpacity" t.stroke_opacity
        ∷ given "strokeWidth" t.stroke_width
        ∷ [])
      []

unfoldable pub satellite_circle : {H : Type 0} → Text → Satellite → Node H
satellite_circle secondary s =
    el "circle"
      (given "cx" s.cx
        ∷ given "cy" s.cy
        ∷ given "r" s.r
        ∷ given "fill" secondary
        ∷ given "fillOpacity" s.fill_opacity
        ∷ [])
      []

-- The markup of a geometry.
unfoldable pub sigil_markup : {H : Type 0} → SigilGeometry → Text → Text → ℕ → Node H
sigil_markup g accent secondary max_width_px =
    el "svg"
      (given "viewBox" g.view_box
        ∷ a "width" "100%"
        ∷ a "height" "100%"
        ∷ styled (
            css "display" "block"
            ∷ css "width" "100%"
            ∷ css "height" "auto"
            ∷ css "aspectRatio" "1 / 1"
            ∷ css "maxHeight" "100%"
            ∷ word "maxWidth" ((show max_width_px) ++ codes "px")
            ∷ css "margin" "0 auto"
            ∷ css "flex" "0 1 auto"
            ∷ [])
        ∷ a "aria-hidden" "true"
        ∷ [])
      (el "defs" [] (
            el "radialGradient"
              (given "id" g.gradient_id ∷ a "cx" "50%" ∷ a "cy" "50%" ∷ a "r" "50%" ∷ [])
              (el "stop" (a "offset" "0%" ∷ given "stopColor" accent ∷ a "stopOpacity" "0.95" ∷ [])
                  []
                ∷ el "stop"
                    (a "offset" "55%" ∷ given "stopColor" secondary ∷ a "stopOpacity" "0.42" ∷ [])
                    []
                ∷ el "stop"
                    (a "offset" "100%" ∷ given "stopColor" color.plum ∷ a "stopOpacity" "0.05" ∷ [])
                    []
                ∷ [])
            ∷ [])
          ∷ el "path"
              (given "d" g.pool
                ∷ given "fill" (codes "url(#" ++ g.gradient_id ++ codes ")")
                ∷ given "stroke" accent
                ∷ a "strokeOpacity" "0.55"
                ∷ a "strokeWidth" "0.9"
                ∷ [])
              []
          ∷ []
        ++ map (tendril_line secondary) g.tendrils
        ++ map (satellite_circle secondary) g.satellites)

-- No caller gives a class name, so that none is set.
unfoldable pub sigil_svg : {H : Type 0} → (cos sin : Number → Number) → ℕ → Text → Text → ℕ → Node H
sigil_svg cos sin seed accent secondary max_width_px =
    sigil_markup (generate_sigil cos sin seed) accent secondary max_width_px
