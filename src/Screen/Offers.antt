-- ===== src/Screen/Offers.antt =====
-- What a user can do on the ceremony, in each of its states.
use Prim.Native.Nat.{min}
use native.Mathlib.Nat.{div-lt_iff_lt-mul}
use native.Mathlib.Decide.{dec_lt}
use moltenpour.Prelude.{
  ℕ, zero, suc, ◌+◌, List, [], ◌∷◌, ◌++◌, map, Option, none, some, Bool, true, false, not, ◌||◌,
  ltb, le→ltb, lt→ltb, pos, negsuc, ◌*◌, ◌/◌, ◌<◌, ◌≤◌, if◌then◌else◌, ◌≡◌, refl, ap, ap₂, sym, ◌∙◌,
  Bool-cases, inl, inr, append-nil, arith,
}
use mathlib.Core.List.{map-append}
use moltenpour.Number.{Number, nan, pos_inf, neg_inf, fin, unit, of_ℕ, ◌<ₙ◌}
use moltenpour.Number.Whole.{unit-pos, whole_div}
use moltenpour.Text.{Text}
use moltenpour.Api.{text_eq}
use moltenpour.Shell.{Phase}
use moltenpour.Tiers.{tiers, map_index, make_tier}
use moltenpour.Telemetry.{tier_bounds}
use moltenpour.Markup.{nodes, live, live_nodes, handlers_here, disabled}
use moltenpour.Markup.Laws.{live-append}
use moltenpour.Screen.Defs.{is_phase, offered}
use moltenpour.Screen.Labels.{Gesture, graduations, spec_rows}
use moltenpour.Screen.Vessel.{vessel, stage}
use moltenpour.Screen.Stage.{
  callout, callout_rule, graduation, graduation_column, stage_grain, stage_shade, stage_corner,
  stage_corners, phase_band, readout_strip,
}
use moltenpour.Screen.Schedule.{
  Props, poured_of, is_withdrawn, schedule, schedule_head, marker, tier_row,
}
use moltenpour.Screen.Spec.{card_head, spec_row, spec_sheet}
use moltenpour.Screen.Band.{threshold_tick, classification, classification_labels}
use moltenpour.Screen.Card.{
  notice_band, notice_of, standing, band_of, seal_button, discard_button, controls, tier_card,
}
use moltenpour.Screen.Page.{ledger, pour_screen}

offering : Unit {0}
unfolding live handlers_here disabled text_eq vessel stage callout callout_rule graduation
    graduation_column graduations stage_grain stage_shade stage_corner stage_corners phase_band
    readout_strip schedule schedule_head marker tier_row card_head spec_row spec_sheet spec_rows
    threshold_tick classification classification_labels notice_band notice_of seal_button
    discard_button controls tier_card ledger pour_screen
offering = tt

-- The stage: a press, the three ways to let go, a drag, and a key down and up.
abbrev pub stage_gestures : List Gesture
stage_gestures =
    Gesture.pressed ∷ Gesture.released ∷ Gesture.released ∷ Gesture.released ∷ Gesture.moved
    ∷ Gesture.key_pressed ∷ Gesture.key_released ∷ []

-- The rows with these indices, `left` of them from i on.
abbrev pub picks_from : ℕ → ℕ → List Gesture
picks_from zero i = []
picks_from (suc left) i = Gesture.tier_picked i ∷ picks_from left (suc i)

-- How many rows a ceiling leaves: those from 0 to its whole part, and at most six. None is left by a ceiling
-- below zero, and all are by one that is no number or above all.
abbrev pub rows_left : Number → ℕ
rows_left nan = 6
rows_left pos_inf = 6
rows_left neg_inf = 0
rows_left (fin (negsuc n)) = 0
rows_left (fin (pos n)) = min (n / unit + 1) 6

-- The seal button and the discard button.
abbrev pub offered_ends : Props → List Gesture
offered_ends props =
    (if not (is_phase props.phase Phase.settled) || props.sealing then [] else Gesture.sealed ∷ [])
    ++ (if poured_of props then Gesture.discarded ∷ [] else [])

-- The test of a row, under a ceiling from zero on and below zero.
above : (n i : ℕ) → fin (pos n) <ₙ of_ℕ i ≡ ltb (n / unit) i
unfolding ◌<ₙ◌ of_ℕ
above n i = elim (dec_lt (n / unit) i) [
  | yes under ↦
      let far : n < i * unit = (div-lt_iff_lt-mul unit-pos).0 under in
      lt→ltb (n + 0) (i * unit + 0) (omega arith) ∙ sym (lt→ltb (n / unit) i under)
  | no reached ↦
      le→ltb (n + 0) (i * unit + 0) (close reached) ∙ sym (le→ltb (n / unit) i (omega arith))
]
  where
    close : (n / unit < i → ⊥) → i * unit + 0 ≤ n + 0
    close reached = elim (dec_lt n (i * unit)) [
      | yes near ↦ absurd (reached ((div-lt_iff_lt-mul unit-pos).1 near))
      | no near ↦ omega arith
    ]

below : (n i : ℕ) → fin (negsuc n) <ₙ of_ℕ i ≡ true
unfolding ◌<ₙ◌ of_ℕ
below n i = lt→ltb 0 (i * unit + suc n) (omega arith)

module _ {H : Type 0} (act : Gesture → H) where
  -- What an idle row offers.
  abbrev row_if : Bool → ℕ → List H
  row_if withdrawn i = if withdrawn || false then [] else act (Gesture.tier_picked i) ∷ []

  abbrev row : ℕ → ℕ → List H
  row most i = row_if (ltb most i) i

  six_rows :
      (most : ℕ)
      → row most 0
          ++ (row most 1 ++ (row most 2 ++ (row most 3 ++ (row most 4 ++ (row most 5 ++ [])))))
        ≡ map act (picks_from (min (most + 1) 6) 0)
  six_rows zero = refl
  six_rows (suc zero) = refl
  six_rows (suc (suc zero)) = refl
  six_rows (suc (suc (suc zero))) = refl
  six_rows (suc (suc (suc (suc zero)))) = refl
  six_rows (suc (suc (suc (suc (suc most))))) =
      let n = suc (suc (suc (suc (suc most)))) in
      let all : min (n + 1) 6 ≡ 6 = omega arith in
      rw (
        all,
        le→ltb n 0 (omega arith),
        le→ltb n 1 (omega arith),
        le→ltb n 2 (omega arith),
        le→ltb n 3 (omega arith),
        le→ltb n 4 (omega arith),
        le→ltb n 5 (omega arith),
      )

  -- The six rows under a ceiling, whatever number it is.
  abbrev rows_under : Number → List H
  rows_under m =
      row_if (m <ₙ of_ℕ 0) 0
      ++ (row_if (m <ₙ of_ℕ 1) 1
          ++ (row_if (m <ₙ of_ℕ 2) 2
              ++ (row_if (m <ₙ of_ℕ 3) 3
                  ++ (row_if (m <ₙ of_ℕ 4) 4 ++ (row_if (m <ₙ of_ℕ 5) 5 ++ [])))))

  rows_under_lem : (m : Number) → rows_under m ≡ map act (picks_from (rows_left m) 0)
  unfolding ◌<ₙ◌ of_ℕ
  rows_under_lem nan = refl
  rows_under_lem pos_inf = refl
  rows_under_lem neg_inf = refl
  rows_under_lem (fin (negsuc n)) =
      rw (below n 0, below n 1, below n 2, below n 3, below n 4, below n 5)
  rows_under_lem (fin (pos n)) =
      rw (above n 0, above n 1, above n 2, above n 3, above n 4, above n 5) (six_rows (n / unit))

  live-vessel :
      (wide : Bool) (phase : Phase) → live (vessel act wide phase) ≡ map act stage_gestures
  unfolding offering
  live-vessel wide phase = refl

  live-schedule :
      (props : Props)
      → live (schedule act props)
        ≡ map act (if poured_of props then [] else picks_from (rows_left props.max_tier_index) 0)
  unfolding offering is_withdrawn tiers map_index make_tier tier_bounds
  live-schedule props = elim (Bool-cases (poured_of props)) [
    | inl poured ↦ rw poured
    | inr idle ↦ rw idle (append-nil _ ∙ rows_under_lem props.max_tier_index)
  ]

  band_live : (notice : Option Text) → live_nodes (nodes {H = H} (band_of notice)) ≡ []
  unfolding offering
  band_live none = refl
  band_live (some []) = refl
  band_live (some (c ∷ s)) = refl

  ends_live :
      (dull poured : Bool)
      → (if dull || false then [] else act Gesture.sealed ∷ [])
          ++ live_nodes (nodes (if poured then discard_button act ∷ [] else []))
        ≡ map act (
            (if dull then [] else Gesture.sealed ∷ [])
            ++ (if poured then Gesture.discarded ∷ [] else []))
  unfolding offering
  ends_live true true = refl
  ends_live true false = refl
  ends_live false true = refl
  ends_live false false = refl

  live-tier_card : (props : Props) → live (tier_card act props) ≡ map act (offered_ends props)
  unfolding offering
  live-tier_card props =
      live-append (band_of (standing props.notice props.unlit)) (controls act props ∷ [])
      ∙ ap₂ (λ xs ys. xs ++ ys) (band_live (standing props.notice props.unlit))
          (append-nil _
            ∙ ends_live (not (is_phase props.phase Phase.settled) || props.sealing)
                (poured_of props))

  pub offers :
      (props : Props)
      → live (pour_screen act props)
        ≡ map act (
            stage_gestures
            ++ (if poured_of props then [] else picks_from (rows_left props.max_tier_index) 0)
            ++ offered_ends props)
  unfolding live handlers_here disabled pour_screen ledger
  offers props =
      let picks = if poured_of props then [] else picks_from (rows_left props.max_tier_index) 0 in
      rw
        (
          live-vessel props.wide props.phase,
          live-schedule props,
          live-tier_card props,
          append-nil,
          append-nil,
        )
        (ap (λ xs. map act stage_gestures ++ xs) (sym (map-append act picks (offered_ends props))))

  -- On the ceremony the handlers that can run are those of the stage, on an idle vessel one for each tier
  -- from the first to the ceiling, whatever number that is, the seal button exactly on a settled pour that
  -- is not being sealed, and the discard button exactly off the idle phase; and under a whole ceiling the
  -- tiers are as many as the arrow keys can reach.
  pub live-pour_screen :
      (props : Props) (n : ℕ)
      → (live (pour_screen act props)
          ≡ map act (
              stage_gestures
              ++ (if poured_of props then [] else picks_from (rows_left props.max_tier_index) 0)
              ++ offered_ends props))
        × (rows_left (of_ℕ n) ≡ offered n)
  unfolding offered of_ℕ
  live-pour_screen props n = (offers props, rw (whole_div n))
