-- ===== src/Certificate/Named.antt =====
-- app/certificate/Certificate.tsx: the sheet that a name of a rarity is drawn as.
use moltenpour.Prelude.{Bool, Option, none, some, ◌≡◌, refl, sym}
use moltenpour.Number.{Number}
use moltenpour.Text.{Text}
use moltenpour.Api.{text_eq, rarity_name}
use moltenpour.Rarity.{Rarity}
use moltenpour.Record.{PourRecord}
use moltenpour.Markup.{Node}
use moltenpour.Certificate.Sheet.{
  known_rarity, drawn_rarity, inherited_names, is_one_of, certificate_in, certificate_named,
}

pub some-injective {ℓ} : {A : Type ℓ} (a b : A) → some a ≡ some b → a ≡ b
some-injective a b e = cc

-- What is drawn is the sheet in the rarity that is drawn.
pub certificate_named-in :
    {H : Type 0} (cos sin : Number → Number) (name : Text) (grain : Bool) (pour : PourRecord)
    (page : Node H)
    → certificate_named cos sin name grain pour ≡ some page
    → (r : Rarity) × (drawn_rarity name ≡ some r) × (page ≡ certificate_in cos sin r grain pour)
unfolding certificate_named
certificate_named-in {H} cos sin name grain pour page h = of (drawn_rarity name) h
  where
    of :
        (o : Option Rarity)
        → (elim o [ none ↦ none | some r ↦ some (certificate_in cos sin r grain pour) ]) ≡ some page
        → (r : Rarity) × (o ≡ some r) × (page ≡ certificate_in cos sin r grain pour)
    of none h = cc
    of (some r) h = (r, refl, sym (some-injective _ _ h))

-- A record with one of the four rarities is drawn in it.
pub certificate_named_own :
    {H : Type 0} (cos sin : Number → Number) (r : Rarity) (grain : Bool) (pour : PourRecord)
    → certificate_named {H = H} cos sin (rarity_name r) grain pour
      ≡ some (certificate_in cos sin r grain pour)
unfolding certificate_named drawn_rarity known_rarity inherited_names is_one_of text_eq
certificate_named_own cos sin Rarity.common grain pour = refl
certificate_named_own cos sin Rarity.uncommon grain pour = refl
certificate_named_own cos sin Rarity.rare grain pour = refl
certificate_named_own cos sin Rarity.singular grain pour = refl
