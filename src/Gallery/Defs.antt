-- ===== src/Gallery/Defs.antt =====
-- app/collection/Gallery.tsx: the register of what was poured. Records have passed the client's guard,
-- so that every rarity has its presentation; their seeds and positions are whole numbers.
use moltenpour.Prelude.{ℕ, suc, ◌+◌, List, [], ◌∷◌, ◌++◌, Option, Bool, if◌then◌else◌}
use moltenpour.Number.{Number}
use moltenpour.Number.UpTo.{nat}
use moltenpour.Text.{codes, show, pad_start}
use moltenpour.Api.{rarity_name}
use moltenpour.Tiers.{format_consideration}
use moltenpour.Record.{PourRecord, format_ordinal}
use moltenpour.Markup.{Node, on, text, word, css, px, num, el, styled, a}
use moltenpour.Design.{color, font, radius, card_border, rarity_presentation, Presentation}
use moltenpour.Sigil.{sigil_svg}
use moltenpour.Gallery.Head.{total_cents, is_open, register_head, empty_register}

-- The tiles.
module _ {H : Type 0} (cos sin : Number → Number) (wide : Bool) (on_select : PourRecord → H) where
  -- The callback of `pours.map`, for the tile at an index.
  unfoldable pub tile : Presentation → Bool → ℕ → PourRecord → Node H
  tile presentation is_open i p = el "li" [] (
      el "button"
        (a "type" "button"
          ∷ a "className" "mp-tile"
          ∷ on (codes "onClick") (on_select p)
          ∷ styled (
              css "position" "relative"
              ∷ css "display" "flex"
              ∷ css "flexDirection" "column"
              ∷ css "alignItems" "stretch"
              ∷ px "gap" 12
              ∷ css "width" "100%"
              ∷ px "padding" 12
              ∷ css "background" "linear-gradient(180deg, rgba(36,18,42,.7), rgba(18,10,22,.7))"
              ∷ word "border"
                  (codes "1px solid " ++ (if is_open then presentation.accent else card_border))
              ∷ num "borderRadius" radius.panel
              ∷ css "boxShadow" "0 24px 50px -28px rgba(0,0,0,.8)"
              ∷ css "transition"
                  "border-color .2s, transform .25s cubic-bezier(.22,1,.36,1), box-shadow .25s"
              ∷ css "cursor" "pointer"
              ∷ word "fontFamily" font.instrument
              ∷ css "textAlign" "left"
              ∷ [])
          ∷ [])
        (el "span"
            (styled (
                css "display" "flex"
                ∷ css "justifyContent" "space-between"
                ∷ css "alignItems" "baseline"
                ∷ px "fontSize" 11
                ∷ css "letterSpacing" "1.8px"
                ∷ word "color" color.gold_faint
                ∷ css "fontVariantNumeric" "tabular-nums"
                ∷ css "padding" "2px 4px 0"
                ∷ [])
              ∷ [])
            (el "span" [] (text (pad_start 2 b'0' (show (i + 1))) ∷ [])
              ∷ el "span" [] (text (format_ordinal (nat p.ledger_position)) ∷ [])
              ∷ [])
          ∷ el "span"
              (styled (
                  css "display" "block"
                  ∷ css "width" "100%"
                  ∷ css "aspectRatio" "1 / 1"
                  ∷ num "borderRadius" radius.well
                  ∷ css "background"
                      "radial-gradient(70% 70% at 50% 45%, rgba(42,17,54,.9), rgba(12,7,15,.95))"
                  ∷ css "boxShadow" "inset 0 0 0 1px rgba(201,146,46,.12)"
                  ∷ px "padding" 8
                  ∷ css "overflow" "hidden"
                  ∷ css "boxSizing" "border-box"
                  ∷ [])
                ∷ [])
              (sigil_svg cos sin (nat p.seed) presentation.accent presentation.secondary 220 ∷ [])
          ∷ el "span"
              (styled (
                  css "display" "flex"
                  ∷ css "justifyContent" "space-between"
                  ∷ css "alignItems" "baseline"
                  ∷ px "gap" 10
                  ∷ css "flexWrap" "wrap"
                  ∷ css "padding" "0 4px 2px"
                  ∷ [])
                ∷ [])
              (el "span"
                  (styled (
                      px "fontSize" 11
                      ∷ css "letterSpacing" "2.4px"
                      ∷ css "textTransform" "uppercase"
                      ∷ word "color" presentation.secondary
                      ∷ css "whiteSpace" "nowrap"
                      ∷ [])
                    ∷ [])
                  (text (rarity_name p.rarity) ∷ [])
                ∷ el "span"
                    (styled (
                        word "fontFamily" font.display
                        ∷ px "fontSize" 16
                        ∷ word "color" color.bronze
                        ∷ css "fontVariantNumeric" "tabular-nums"
                        ∷ [])
                      ∷ [])
                    (text (format_consideration p.amount_cents) ∷ [])
                ∷ [])
          ∷ [])
      ∷ [])

  unfoldable pub tiles : Option PourRecord → ℕ → List PourRecord → List (Node H)
  tiles current i [] = []
  tiles current i (p ∷ ps) =
      tile (rarity_presentation p.rarity) (is_open current p) i p ∷ tiles current (suc i) ps

  unfoldable pub tile_list : Option PourRecord → List PourRecord → Node H
  tile_list current pours =
      el "ul"
        (styled (
            css "listStyle" "none"
            ∷ px "margin" 0
            ∷ px "padding" 0
            ∷ css "display" "grid"
            ∷ word "gridTemplateColumns" (
                codes "repeat(auto-fill, minmax("
                ++ (if wide then codes "220" else codes "150")
                ++ codes "px, 1fr))")
            ∷ css "gap" "clamp(14px, 1.6vw, 22px)"
            ∷ [])
          ∷ [])
        (tiles current 0 pours)

  -- The empty state, or the tiles.
  unfoldable pub shown_register : Option PourRecord → List PourRecord → Node H
  shown_register current [] = empty_register
  shown_register current (p ∷ ps) = tile_list current (p ∷ ps)

  unfoldable pub gallery : Option PourRecord → List PourRecord → Node H
  gallery current pours =
      el "div"
        (styled (css "display" "flex" ∷ css "flexDirection" "column" ∷ px "gap" 20 ∷ []) ∷ [])
        (register_head (total_cents pours) ∷ shown_register current pours ∷ [])
