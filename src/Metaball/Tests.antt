-- ===== src/Metaball/Tests.antt =====
-- Three visits: two with a context that lights the vessel, one of them without the extension that releases
-- it, and one whose program does not link.
use moltenpour.Prelude.{List, [], ◌∷◌, none, true, false, ◌≡◌, refl}
use moltenpour.Number.{of_ℕ}
use moltenpour.Metaball.Defs.{Size, Answers, is_lit, all_of}
use moltenpour.Metaball.Lifecycle.{
  held_after, held, visits, dark, count_visits, is_given, is_released, visits-held,
}

abbrev lighting : Answers
lighting = record {
  context = true;
  program = true;
  vertex_created = true;
  vertex_compiles = true;
  fragment_created = true;
  fragment_compiles = true;
  links = true;
  lose_extension = true;
}

abbrev square : Size
square = record { width = of_ℕ 900; height = of_ℕ 900 }

abbrev three_visits : List (Answers × Size)
three_visits =
    (lighting, square)
    ∷ (record lighting { lose_extension = false }, square)
    ∷ (record lighting { links = false }, square)
    ∷ []

-- Two are lit, three are given a program, and one is released.
two_lit :
    held
      (count_visits is_lit three_visits)
      (count_visits is_given three_visits)
      (count_visits is_released three_visits)
    ≡ held 2 3 1
unfolding count_visits is_lit all_of
two_lit = refl

visits-held_example :
    (held_after (held 0 0 0) (visits three_visits dark).calls
      ≡ held
          (count_visits is_lit three_visits)
          (count_visits is_given three_visits)
          (count_visits is_released three_visits))
    × ((visits three_visits dark).renderer ≡ none)
visits-held_example = visits-held three_visits
