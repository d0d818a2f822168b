-- ===== src/App/Tests.antt =====
-- The page of a poured vessel, with a certificate to go back to.
use moltenpour.Prelude.{◌++◌, ◌≡◌, some, true, false}
use moltenpour.Number.{Number, of_ℕ}
use moltenpour.Rarity.{Rarity}
use moltenpour.Certificate.{specimen, Zoom}
use moltenpour.Markup.{live}
use moltenpour.Shell.{Shell, initial, Phase, View}
use moltenpour.App.Defs.{Surroundings, app}
use moltenpour.App.Offers.{live-app, tab_actions, main_actions}

abbrev cos : Number → Number
cos x = of_ℕ 1

abbrev sin : Number → Number
sin x = of_ℕ 0

abbrev around : Surroundings
around = record { wide = true; unlit = false; zoom = Zoom.fit; column_w = of_ℕ 700 }

abbrev poured_shell : Shell
poured_shell = record initial { phase = Phase.settled; current = some (specimen Rarity.rare 2) }

live-app_example :
    live (app cos sin around poured_shell)
    ≡ tab_actions (some (specimen Rarity.rare 2))
      ++ main_actions around poured_shell View.ceremony (some (specimen Rarity.rare 2))
unfolding initial
live-app_example = live-app cos sin around poured_shell
