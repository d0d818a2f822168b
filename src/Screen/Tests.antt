-- ===== src/Screen/Tests.antt =====
-- A pour of a moment, from an idle screen to a settled one.
use moltenpour.Prelude.{◌↔◌, ◌≡◌, refl, none, true, false, List, [], ◌∷◌, ◌++◌, map, if◌then◌else◌}
use moltenpour.Number.{of_ℕ, neg, running}
use moltenpour.Rarity.{Rarity}
use moltenpour.Telemetry.Sim
use moltenpour.Tiers.{tier_at, first_tier, make_tier}
use moltenpour.Rig.{
  step_rig, frame_of, eased, ease_feel, ease, swept, shut, step_blobs, step_blob, create_rig,
  telemetry_of, free_slots, free_slot, is_settled, max_frame_ms, feel_ease_rate, sim_height,
}
use moltenpour.Rig.Tests.{pow, poured}
use moltenpour.Shell.{Phase}
use moltenpour.Screen.Defs.{
  offered, Screen, ScreenEvent, mounted, discarded, stream_opened, stream_closed, framed, oriented,
  respond, open_stream, opened, close_stream, frame, frame_ms, stepped, announced, concluded,
  read_out, readout_ms, request_of,
}
use moltenpour.Screen.Schedule.{Props, poured_of}
use moltenpour.Screen.Page.{pour_screen}
use moltenpour.Screen.Offers.{stage_gestures, picks_from, offered_ends, rows_left, live-pour_screen}
use moltenpour.Markup.{live}
use moltenpour.Screen.Begun.{empty_pour}
use moltenpour.Screen.Fresh.{mounted-fresh}
use moltenpour.Screen.Kept.{respond_all, ScreenReachable, request_of-kept}

abbrev idle_screen : Screen
idle_screen = record {
  rig = poured;
  pouring = false;
  started_at = none;
  lean = of_ℕ 0;
  last = of_ℕ 0;
  readout_acc = of_ℕ 0;
  phase = Phase.idle;
  rarity = Rarity.common;
  notice = none;
  tier_index = 0;
}

abbrev settled_screen : Screen
settled_screen =
    respond pow (framed (of_ℕ 30) (of_ℕ 900) (of_ℕ 900))
      (respond pow stream_closed (respond pow (stream_opened (of_ℕ 7)) idle_screen))

settled_screen-ScreenReachable : ScreenReachable pow settled_screen
settled_screen-ScreenReachable =
    ScreenReachable.step _
      (ScreenReachable.step _ (ScreenReachable.step _ (ScreenReachable.start idle_screen refl)))

settled_screen_phase : settled_screen.phase ≡ Phase.settled
unfolding respond open_stream opened close_stream frame frame_ms stepped announced concluded
    read_out readout_ms running step_rig frame_of eased ease_feel ease swept shut step_blobs
    step_blob create_rig free_slots free_slot is_settled tier_at first_tier make_tier
    Sim.max_pour_ms max_frame_ms feel_ease_rate sim_height
settled_screen_phase = refl

abbrev later : List ScreenEvent
later = framed (of_ℕ 46) (of_ℕ 900) (of_ℕ 900) ∷ stream_opened (of_ℕ 50) ∷ oriented (of_ℕ 9) ∷ []

request_of-kept_example :
    ((respond_all pow later settled_screen).phase ≡ Phase.settled)
    × (request_of (of_ℕ 60) (respond_all pow later settled_screen)
        ≡ request_of (of_ℕ 60) settled_screen)
request_of-kept_example =
    request_of-kept pow settled_screen later (of_ℕ 60) settled_screen-ScreenReachable
      settled_screen_phase (refl, (refl, (refl, tt)))

abbrev poured_props : Props
poured_props = record {
  tier_index = of_ℕ 2;
  max_tier_index = of_ℕ 3;
  phase = Phase.idle;
  rarity = Rarity.common;
  notice = none;
  sealing = false;
  wide = true;
  unlit = true;
}

live-pour_screen_example :
    (live (pour_screen (λ g. g) poured_props)
      ≡ map
          (λ g. g)
          (stage_gestures
            ++ (if poured_of poured_props then [] else picks_from (rows_left (of_ℕ 3)) 0)
            ++ offered_ends poured_props))
    × (rows_left (of_ℕ 3) ≡ offered 3)
live-pour_screen_example = live-pour_screen (λ g. g) poured_props 3

-- A ceiling below zero leaves no tier.
none_left : rows_left (neg (of_ℕ 1)) ≡ 0
unfolding running
none_left = refl

-- A pour that is discarded while the stream is open.
abbrev thrown_away : List ScreenEvent
thrown_away = stream_opened (of_ℕ 7) ∷ framed (of_ℕ 30) (of_ℕ 900) (of_ℕ 900) ∷ discarded ∷ []

abbrev emptied : Screen
emptied = respond_all pow thrown_away (mounted Phase.idle Rarity.common none 2)

mounted-fresh_example : (emptied.phase ≡ Phase.idle) ↔ (
    (emptied.pouring ≡ false)
    × (emptied.started_at ≡ none)
    × (telemetry_of emptied.rig ≡ empty_pour))
mounted-fresh_example = mounted-fresh pow thrown_away Rarity.common none 2
