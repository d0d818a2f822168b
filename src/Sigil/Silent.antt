-- ===== src/Sigil/Silent.antt =====
-- A drawn sigil has no handlers.
use moltenpour.Prelude.{[], ◌++◌, map, ◌≡◌, refl, ap₂, ◌∙◌}
use moltenpour.Text.{Text}
use moltenpour.Markup.{nodes, live, live_nodes, handlers_here, disabled}
use moltenpour.Markup.Laws.{live-append, live-map_none}
use moltenpour.Sigil.Geometry.{SigilGeometry}
use moltenpour.Sigil.Svg.{tendril_line, satellite_circle}

pub drawn_live :
    (H : Type 0) (g : SigilGeometry) (t : Text)
    → live_nodes
        (nodes {H = H} (map (tendril_line t) g.tendrils ++ map (satellite_circle t) g.satellites))
      ≡ []
unfolding live handlers_here disabled tendril_line satellite_circle
drawn_live H g t =
    live-append (map (tendril_line t) g.tendrils) (map (satellite_circle t) g.satellites)
    ∙ ap₂ (λ a b. a ++ b) (live-map_none (tendril_line t) g.tendrils (λ x. refl))
        (live-map_none (satellite_circle t) g.satellites (λ x. refl))
