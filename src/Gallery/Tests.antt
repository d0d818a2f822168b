-- ===== src/Gallery/Tests.antt =====
-- A register of two pours.
use moltenpour.Prelude.{[], ◌∷◌, List, map, some, true, ◌≡◌}
use moltenpour.Number.{Number, of_ℕ}
use moltenpour.Text.{codes}
use moltenpour.Tiers.{format_usd}
use moltenpour.Rarity.{Rarity}
use moltenpour.Record.{PourRecord}
use moltenpour.Certificate.{specimen}
use moltenpour.Markup.{live, spoken}
use moltenpour.Gallery.Head.{total_cents}
use moltenpour.Gallery.Defs.{gallery}
use moltenpour.Gallery.Register.{gallery_register, register_body}

abbrev cos : Number → Number
cos x = of_ℕ 1

abbrev sin : Number → Number
sin x = of_ℕ 0

abbrev two_pours : List PourRecord
two_pours = specimen Rarity.common 0 ∷ specimen Rarity.singular 3 ∷ []

gallery_register_example :
    (live (gallery cos sin true (λ p. p) (some (specimen Rarity.common 0)) two_pours)
      ≡ map (λ p. p) two_pours)
    × (spoken (gallery cos sin true (λ p. p) (some (specimen Rarity.common 0)) two_pours)
        ≡ codes "Disbursements on record"
          ∷ format_usd (total_cents two_pours)
          ∷ codes " rendered irrecoverable"
          ∷ register_body two_pours)
gallery_register_example =
    gallery_register cos sin true (λ p. p) (some (specimen Rarity.common 0)) two_pours
