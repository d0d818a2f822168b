-- ===== src/Design/Still.antt =====
-- What reduced motion leaves of the metal behind the page.
use moltenpour.Prelude.{
  zero, suc, List, [], ◌∷◌, Bool, true, false, ◌||◌, if◌then◌else◌, ◌≡◌, refl, ap, ◌∙◌, arith, ℤ,
  pos, negsuc, neg_ℤ, ◌+ℤ◌,
}
use moltenpour.Number.{
  Number, nan, pos_inf, neg_inf, fin, of_ℕ, ratio, abs, neg, double, running, ◌+ₙ◌, ◌-ₙ◌, ◌<ₙ◌,
  ◌/ₙ◌,
}
use moltenpour.Design.Tokens.{background}
use moltenpour.Design.Background.{
  BackgroundField, is_moving, eased_amount, drifted, drawn_frame, background_frame, on_pointer,
  on_lost,
}

-- A frame on a page that is hidden or not, at its time; a move of the pointer over the window; the loss
-- of the context.
pub data FieldEvent : Type 0 where
  frame_due : Bool → Number → FieldEvent
  pointer_moved : Number → Number → Number → Number → FieldEvent
  context_lost : FieldEvent

unfoldable pub field_after :
    (lerp : Number → Number → Number → Number)
    → Number
    → Bool
    → FieldEvent
    → BackgroundField
    → BackgroundField
field_after lerp target reduced (frame_due is_hidden now) f =
    background_frame lerp target is_hidden reduced now f
field_after lerp target reduced (pointer_moved x y width height) f = on_pointer x y width height f
field_after lerp target reduced context_lost f = on_lost f

unfoldable pub field_after_all :
    (lerp : Number → Number → Number → Number)
    → Number
    → Bool
    → List FieldEvent
    → BackgroundField
    → BackgroundField
field_after_all lerp target reduced [] f = f
field_after_all lerp target reduced (e ∷ es) f =
    field_after_all lerp target reduced es (field_after lerp target reduced e f)

opposite : (z : ℤ) → z +ℤ neg_ℤ z ≡ pos 0
unfolding ◌+ℤ◌
opposite (pos zero) = refl
opposite (pos (suc n)) = ground arith
opposite (negsuc n) = ground arith

-- No number differs from itself by more than a ten-thousandth.
self_difference : (a : Number) → (ratio 1 10_000 <ₙ abs (a -ₙ a)) ≡ false
self_difference nan = unfold running in refl
self_difference pos_inf = unfold running in refl
self_difference neg_inf = unfold running in refl
self_difference (fin z) =
    let none_left : fin z -ₙ fin z ≡ double (z +ℤ neg_ℤ z) 1 =
      unfold ◌-ₙ◌ in unfold ◌+ₙ◌ in unfold neg in refl in
    let zero_small : (ratio 1 10_000 <ₙ abs (double (pos 0) 1)) ≡ false = unfold running in refl in
    ap (λ d. ratio 1 10_000 <ₙ abs d) (none_left ∙ ap (λ w. double w 1) (opposite z)) ∙ zero_small

-- Nothing asks for a frame.
abbrev pub IsAtRest : Number → BackgroundField → Type 0
IsAtRest target f = (f.dirty ≡ false) × (is_moving target f ≡ false)

-- What is seen, and how often it was drawn.
abbrev pub LooksLike : BackgroundField → BackgroundField → Type 0
LooksLike f g =
    (f.time ≡ g.time) × (f.ptr_x ≡ g.ptr_x) × (f.ptr_y ≡ g.ptr_y) × (f.renders ≡ g.renders)

drawn_frame-IsAtRest :
    (lerp : Number → Number → Number → Number) (target now : Number) (f : BackgroundField)
    → IsAtRest target f
    → IsAtRest target (drawn_frame lerp target true now f)
      × LooksLike (drawn_frame lerp target true now f) f
unfolding drawn_frame drifted is_moving eased_amount
drawn_frame-IsAtRest lerp target now f (clean, still) =
    rw (still, clean) ((refl, self_difference target), (refl, refl, refl, refl))

-- At rest, and with the look of another field.
abbrev RestsAs : Number → BackgroundField → BackgroundField → Type 0
RestsAs target g f = IsAtRest target f × LooksLike f g

either_field :
    (P : BackgroundField → Type 0) (b : Bool) (f g : BackgroundField)
    → P f
    → P g
    → P (if b then f else g)
either_field P true f g p q = p
either_field P false f g p q = q

background_frame-RestsAs :
    (lerp : Number → Number → Number → Number) (target : Number) (is_hidden : Bool) (now : Number)
    (f : BackgroundField)
    → IsAtRest target f
    → RestsAs target f (background_frame lerp target is_hidden true now f)
unfolding background_frame
background_frame-RestsAs lerp target is_hidden now f h =
    either_field (λ g. RestsAs target f g) (is_hidden || f.lost) _ _
      (unfold is_moving in (h, (refl, refl, refl, refl)))
      (either_field (λ g. RestsAs target f g) (now -ₙ f.last <ₙ of_ℕ 1000 /ₙ background.fps) f _
        (h, (refl, refl, refl, refl)) (drawn_frame-IsAtRest lerp target now f h))

field_after-RestsAs :
    (lerp : Number → Number → Number → Number) (target : Number) (e : FieldEvent)
    (f : BackgroundField)
    → IsAtRest target f
    → RestsAs target f (field_after lerp target true e f)
unfolding field_after
field_after-RestsAs lerp target (frame_due is_hidden now) f h =
    background_frame-RestsAs lerp target is_hidden now f h
field_after-RestsAs lerp target (pointer_moved x y width height) f h =
    unfold on_pointer in unfold is_moving in (h, (refl, refl, refl, refl))
field_after-RestsAs lerp target context_lost f h =
    unfold on_lost in unfold is_moving in (h, (refl, refl, refl, refl))

-- With reduced motion, a field that is not dirty and whose amount is at its target, to a ten-thousandth,
-- is drawn no more, and its time and its lit point stay where they are, over all frames, moves of the
-- pointer and losses of the context, for any `lerp`.
pub field_after_all-still :
    (lerp : Number → Number → Number → Number) (target : Number) (es : List FieldEvent)
    (f : BackgroundField)
    → IsAtRest target f
    → LooksLike (field_after_all lerp target true es f) f
unfolding field_after_all
field_after_all-still lerp target [] f h = (refl, refl, refl, refl)
field_after_all-still lerp target (e ∷ es) f h =
    let (rest, (time, x, y, renders)) = field_after-RestsAs lerp target e f h in
    let (time_after, x_after, y_after, renders_after) =
      field_after_all-still lerp target es (field_after lerp target true e f) rest in
    (time_after ∙ time, x_after ∙ x, y_after ∙ y, renders_after ∙ renders)
