-- ===== src/Design/Background.antt =====
-- app/design/MoltenBackground.tsx: the metal behind the page. The renderer and its shader are the
-- library's; what a frame does to their uniforms, and whether it renders, is modelled. `lerp` is the
-- library's step of a coordinate towards another.
use moltenpour.Prelude.{ℕ, suc, [], ◌∷◌, Bool, true, false, not, ◌||◌, if◌then◌else◌}
use moltenpour.Number.{Number, of_ℕ, ratio, min, max, abs, ◌+ₙ◌, ◌-ₙ◌, ◌*ₙ◌, ◌/ₙ◌, ◌<ₙ◌}
use moltenpour.Markup.{Node, css, px, el, styled, a}
use moltenpour.Design.Tokens.{background}

-- The uniforms that change, where the pointer was last seen, and what the closures keep.
pub record BackgroundField : Type 0 where
  pub time : Number
  pub amount : Number
  pub ptr_x : Number
  pub ptr_y : Number
  pub res_x : Number
  pub res_y : Number
  pub pointer_x : Number
  pub pointer_y : Number
  pub dirty : Bool
  pub lost : Bool
  pub last : Number
  pub renders : ℕ

-- `targetAmount`.
unfoldable pub target_amount : Number → Bool → Number
target_amount intensity dimmed =
    max (of_ℕ 0) (min (of_ℕ 1) intensity)
    *ₙ (if dimmed then background.dim_while_pouring else of_ℕ 1)

-- `resize`.
unfoldable pub resized : Number → Number → BackgroundField → BackgroundField
resized width height f = record f {
  res_x = max (of_ℕ 1) width;
  res_y = max (of_ℕ 1) height;
  dirty = true;
}

-- What is attached to a host of this size.
unfoldable pub attached : Number → Bool → Number → Number → BackgroundField
attached intensity dimmed width height = resized width height (record {
  time = of_ℕ 40;
  amount = target_amount intensity dimmed;
  ptr_x = ratio 5 10;
  ptr_y = ratio 5 10;
  res_x = of_ℕ 1;
  res_y = of_ℕ 1;
  pointer_x = ratio 5 10;
  pointer_y = ratio 5 10;
  dirty = true;
  lost = false;
  last = of_ℕ 0;
  renders = 0;
})

unfoldable pub on_pointer : Number → Number → Number → Number → BackgroundField → BackgroundField
on_pointer client_x client_y inner_width inner_height f = record f {
  pointer_x = client_x /ₙ inner_width;
  pointer_y = of_ℕ 1 -ₙ client_y /ₙ inner_height;
}

unfoldable pub on_motion : BackgroundField → BackgroundField
on_motion f = record f { dirty = true }

unfoldable pub on_lost : BackgroundField → BackgroundField
on_lost f = record f { lost = true }

unfoldable pub on_restored : BackgroundField → BackgroundField
on_restored f = record f { lost = false; dirty = true; last = of_ℕ 0 }

-- `last ? Math.min((now - last) / 1000, .1) : 1 / BACKGROUND.fps`.
unfoldable pub frame_seconds : Number → Number → Number
frame_seconds last now =
    if of_ℕ 0 <ₙ last || last <ₙ of_ℕ 0
    then min ((now -ₙ last) /ₙ of_ℕ 1000) (ratio 1 10)
    else of_ℕ 1 /ₙ background.fps

unfoldable pub is_moving : Number → BackgroundField → Bool
is_moving target f = ratio 1 10000 <ₙ abs (target -ₙ f.amount)

unfoldable pub eased_amount : Number → Number → BackgroundField → Number
eased_amount target dt f =
    if is_moving target f
    then f.amount +ₙ (target -ₙ f.amount) *ₙ min (of_ℕ 1) (dt *ₙ ratio 15 10)
    else target

-- What a frame moves, unless motion is reduced.
unfoldable pub drifted :
    (lerp : Number → Number → Number → Number) → Bool → Number → BackgroundField → BackgroundField
drifted lerp true dt f = f
drifted lerp false dt f =
    let step = min (of_ℕ 1) (dt *ₙ ratio 6 10) in
    record f {
      time = f.time +ₙ dt;
      ptr_x = lerp f.ptr_x f.pointer_x step;
      ptr_y = lerp f.ptr_y f.pointer_y step;
    }

-- The frame behind its two guards.
unfoldable pub drawn_frame :
    (lerp : Number → Number → Number → Number)
    → Number
    → Bool
    → Number
    → BackgroundField
    → BackgroundField
drawn_frame lerp target reduced now f =
    let dt = frame_seconds f.last now in
    let moving = is_moving target f in
    let after =
      drifted lerp reduced dt (record f { last = now; amount = eased_amount target dt f }) in
    record after {
      dirty = false;
      renders = if not reduced || f.dirty || moving then suc f.renders else f.renders;
    }

-- `frame`, for a target, a document that is hidden or not, and motion that is reduced or not.
unfoldable pub background_frame :
    (lerp : Number → Number → Number → Number)
    → Number
    → (is_hidden reduced : Bool) → Number
    → BackgroundField
    → BackgroundField
background_frame lerp target is_hidden reduced now f =
    if is_hidden || f.lost
    then record f { last = of_ℕ 0 }
    else if now -ₙ f.last <ₙ of_ℕ 1000 /ₙ background.fps
    then f
    else drawn_frame lerp target reduced now f

-- The host that the canvas is attached to.
unfoldable pub molten_background : {H : Type 0} → Node H
molten_background =
    el "div"
      (a "className" "app-chrome mp-bg"
        ∷ a "aria-hidden" "true"
        ∷ styled (css "position" "fixed" ∷ px "inset" 0 ∷ css "pointerEvents" "none" ∷ [])
        ∷ [])
      []
