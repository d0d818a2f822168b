-- ===== src/Gallery/Register.antt =====
-- What the register opens, and what it says.
use moltenpour.Prelude.{
  ℕ, suc, ◌+◌, List, [], ◌∷◌, ◌++◌, Option, Bool, ◌≡◌, refl, ap, map, append-nil,
}
use moltenpour.Number.{Number}
use moltenpour.Number.UpTo.{nat}
use moltenpour.Text.{Text, codes, show, pad_start}
use moltenpour.Api.{text_eq, rarity_name}
use moltenpour.Tiers.{format_usd, format_consideration}
use moltenpour.Record.{PourRecord, format_ordinal}
use moltenpour.Markup.{
  nodes, live, disabled, live_nodes, handlers_here, spoken, spoken_nodes, hidden,
}
use moltenpour.Design.{rarity_presentation}
use moltenpour.Sigil.Silent.{drawn_live}
use moltenpour.Sigil.{generate_sigil, sigil_svg, sigil_markup}
use moltenpour.Gallery.Defs.{gallery, tiles, tile, shown_register, tile_list}
use moltenpour.Gallery.Head.{empty_register, register_head, total_cents}

pub showing : Unit {0}
unfolding live disabled handlers_here spoken hidden text_eq gallery tiles tile shown_register
    tile_list empty_register register_head sigil_svg sigil_markup
showing = tt

-- What a tile says.
abbrev pub tile_lines : ℕ → PourRecord → List Text
tile_lines i p =
    pad_start 2 b'0' (show (i + 1))
    ∷ format_ordinal (nat p.ledger_position)
    ∷ rarity_name p.rarity
    ∷ format_consideration p.amount_cents
    ∷ []

abbrev pub register_lines : ℕ → List PourRecord → List Text
register_lines i [] = []
register_lines i (p ∷ ps) = tile_lines i p ++ register_lines (suc i) ps

-- What stands below the head.
abbrev pub register_body : List PourRecord → List Text
register_body [] =
    codes "The register is open and empty" ∷ codes "nothing has yet been given for nothing" ∷ []
register_body (p ∷ ps) = register_lines 0 (p ∷ ps)

module _ {H : Type 0} (cos sin : Number → Number) (wide : Bool) (on_select : PourRecord → H) where
  tiles_live :
      (current : Option PourRecord) (i : ℕ) (ps : List PourRecord)
      → live_nodes (nodes (tiles cos sin wide on_select current i ps)) ≡ map on_select ps
  unfolding showing
  tiles_live current i [] = refl
  tiles_live current i (p ∷ ps) =
      rw
        (drawn_live H (generate_sigil cos sin (nat p.seed))
          (rarity_presentation p.rarity).secondary)
        (ap (λ hs. on_select p ∷ hs) (tiles_live current (suc i) ps))

  tiles_spoken :
      (current : Option PourRecord) (i : ℕ) (ps : List PourRecord)
      → spoken_nodes (nodes (tiles cos sin wide on_select current i ps)) ≡ register_lines i ps
  unfolding showing
  tiles_spoken current i [] = refl
  tiles_spoken current i (p ∷ ps) =
      ap (λ ls. tile_lines i p ++ ls) (tiles_spoken current (suc i) ps)

  -- The handlers of the register that can run are one for each pour, which selects it, in order;
  -- and what a screen reader is given is the head, the sum of the amounts, and for each pour its
  -- number from 1 in two digits, its ordinal, its rarity and its price, or, without a pour, the
  -- two lines of the open and empty register.
  pub gallery_register :
      (current : Option PourRecord) (pours : List PourRecord)
      → let page = gallery cos sin wide on_select current pours in
        (live page ≡ map on_select pours)
        × (spoken page
            ≡ codes "Disbursements on record"
              ∷ format_usd (total_cents pours)
              ∷ codes " rendered irrecoverable"
              ∷ register_body pours)
  unfolding showing
  gallery_register current [] = (refl, refl)
  gallery_register current (p ∷ ps) = (
    rw (
      drawn_live H (generate_sigil cos sin (nat p.seed)) (rarity_presentation p.rarity).secondary,
      tiles_live current 1 ps,
      append-nil,
    ),
    rw (tiles_spoken current 1 ps, append-nil),
  )
