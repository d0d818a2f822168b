-- ===== src/Screen/Labels.antt =====
-- app/ceremony/PourScreen.tsx: its constants, and what a user can do on the ceremony.
use moltenpour.Prelude.{ℕ, List, [], ◌∷◌, Bool, true, false}
use moltenpour.Number.{Number, of_ℕ}
use moltenpour.Text.{Text, codes}
use moltenpour.Shell.{Phase}
use moltenpour.Markup.{Declaration, word, css, px}
use moltenpour.Design.{color}

-- What the handlers of the markup stand for: the stage pressed, let go of, dragged over, a key on it,
-- a tier row, the seal button, and the discard button.
pub data Gesture : Type 0 where
  pressed : Gesture
  released : Gesture
  moved : Gesture
  key_pressed : Gesture
  key_released : Gesture
  tier_picked : ℕ → Gesture
  sealed : Gesture
  discarded : Gesture

unfoldable pub row_h : Number
row_h = of_ℕ 50

unfoldable pub no_webgl_notice : Text
no_webgl_notice = codes "The vessel could not be lit — WebGL is unavailable in this context."

unfoldable pub phase_label : Phase → Text
phase_label Phase.idle = codes "Hold to pour"
phase_label Phase.pouring = codes "Stream open"
phase_label Phase.settling = codes "Settling"
phase_label Phase.settled = codes "Stream closed"

unfoldable pub now_label : Phase → Text
now_label Phase.idle = codes "Selected for disbursement"
now_label Phase.pouring = codes "Now pouring"
now_label Phase.settling = codes "Now pouring"
now_label Phase.settled = codes "Poured · awaiting seal"

unfoldable pub spec_rows : List Text
spec_rows = codes "Fill" ∷ codes "Force" ∷ codes "Commitment" ∷ codes "Steadiness" ∷ []

unfoldable pub graduations : List Text
graduations =
    codes "15 s —"
    ∷ codes "12 s —"
    ∷ codes "9 s —"
    ∷ codes "6 s —"
    ∷ codes "3 s —"
    ∷ codes "0 —"
    ∷ []

-- `LABEL_11`.
unfoldable pub label_11 : List Declaration
label_11 = px "fontSize" 11 ∷ css "textTransform" "uppercase" ∷ word "color" color.gold_label ∷ []

unfoldable pub stage_height : Bool → Text
stage_height true = codes "min(68vh, 700px)"
stage_height false = codes "min(58vh, 520px)"
