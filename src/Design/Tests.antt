-- ===== src/Design/Tests.antt =====
-- The metal behind a page whose motion is reduced.
use moltenpour.Prelude.{List, [], ◌∷◌, true, false, refl}
use moltenpour.Number.{Number, of_ℕ, ratio, running}
use moltenpour.Design.Background.{BackgroundField, is_moving}
use moltenpour.Design.Still.{
  FieldEvent, frame_due, pointer_moved, context_lost, field_after_all, IsAtRest, LooksLike,
  field_after_all-still,
}

abbrev halfway : Number → Number → Number → Number
halfway a b step = b

abbrev resting : BackgroundField
resting = record {
  time = of_ℕ 40;
  amount = of_ℕ 1;
  ptr_x = ratio 5 10;
  ptr_y = ratio 5 10;
  res_x = of_ℕ 900;
  res_y = of_ℕ 700;
  pointer_x = ratio 5 10;
  pointer_y = ratio 5 10;
  dirty = false;
  lost = false;
  last = of_ℕ 1000;
  renders = 1;
}

resting-IsAtRest : IsAtRest (of_ℕ 1) resting
unfolding is_moving running
resting-IsAtRest = (refl, refl)

abbrev a_while : List FieldEvent
a_while =
    pointer_moved (of_ℕ 90) (of_ℕ 70) (of_ℕ 900) (of_ℕ 700)
    ∷ frame_due false (of_ℕ 1100)
    ∷ frame_due true (of_ℕ 1200)
    ∷ context_lost
    ∷ []

field_after_all-still_example :
    LooksLike (field_after_all halfway (of_ℕ 1) true a_while resting) resting
field_after_all-still_example =
    field_after_all-still halfway (of_ℕ 1) a_while resting resting-IsAtRest
