-- ===== src/Screen/Defs.antt =====
-- The handlers and the frame loop of `PourScreen`. A callback of the shell is a write to the phase,
-- the rarity, the notice or the tier index that the screen is shown with; every event is followed by
-- the render that it asks for.
use moltenpour.Prelude.{
  ℕ, ◌+◌, ◌-◌, ◌%◌, Option, none, some, Bool, true, false, not, ◌&&◌, ◌||◌, if◌then◌else◌, ltb,
}
use Prim.Native.Nat.{min}
use moltenpour.Number.{min as min_number, max as max_number}
use moltenpour.Number.{Number, of_ℕ, neg, ◌/ₙ◌, ◌+ₙ◌, ◌-ₙ◌, ◌<ₙ◌, ◌<=ₙ◌, ◌*ₙ◌, ratio}
use moltenpour.Text.{Text, codes}
use moltenpour.Rarity.{Rarity, classify}
use moltenpour.Tiers.{tier_at}
use moltenpour.Record.{MintRequest}
use moltenpour.Rig.{Rig, RigInput, create_rig, step_rig, reset_rig, is_settled, telemetry_of}
use moltenpour.Shell.{Phase}

-- What the screen keeps in its refs, and the props that its handlers read.
pub record Screen : Type 0 where
  pub rig : Rig
  pub pouring : Bool
  pub started_at : Option Number
  pub lean : Number
  pub last : Number
  pub readout_acc : Number
  pub phase : Phase
  pub rarity : Rarity
  pub notice : Option Text
  pub tier_index : ℕ

-- The refs of a screen that is put on the page, with the props that the shell hands to it; the seed is
-- the default of `createRig`.
unfoldable pub mounted : Phase → Rarity → Option Text → ℕ → Screen
mounted phase rarity notice tier_index = record {
  rig = create_rig (tier_at (of_ℕ tier_index)) 0x9e3779b9;
  pouring = false;
  started_at = none;
  lean = of_ℕ 0;
  last = of_ℕ 0;
  readout_acc = of_ℕ 0;
  phase = phase;
  rarity = rarity;
  notice = notice;
  tier_index = tier_index;
}

unfoldable pub readout_ms : Number
readout_ms = of_ℕ 100

unfoldable pub hard_stop_notice : Text
hard_stop_notice = codes "Hard stop reached at fifteen seconds. The vessel accepts no more."

abbrev pub is_phase : Phase → Phase → Bool
is_phase Phase.idle Phase.idle = true
is_phase Phase.pouring Phase.pouring = true
is_phase Phase.settling Phase.settling = true
is_phase Phase.settled Phase.settled = true
is_phase p q = false

abbrev pub or_now : Option Number → Number → Option Number
or_now none now = some now
or_now (some t) now = some t

-- The part of `openStream` behind its guard.
unfoldable pub opened : Number → Screen → Screen
opened now s =
    let running = record s { started_at = or_now s.started_at now; pouring = true } in
    if is_phase s.phase Phase.pouring
    then running
    else record running { phase = Phase.pouring; notice = none }

unfoldable pub open_stream : Number → Screen → Screen
open_stream now s =
    if is_phase s.phase Phase.settled || s.rig.finished || s.pouring then s else opened now s

unfoldable pub close_stream : Screen → Screen
close_stream s = if s.pouring then record s { pouring = false; phase = Phase.settling } else s

unfoldable pub discard : Screen → Screen
discard s = record s {
  pouring = false;
  started_at = none;
  rig = reset_rig s.rig;
  phase = Phase.idle;
  rarity = Rarity.common;
  notice = none;
}

-- `last ? Math.min(now - last, 100) : 16`.
unfoldable pub frame_ms : Number → Number → Number
frame_ms last now =
    if of_ℕ 0 <ₙ last || last <ₙ of_ℕ 0 then min_number (now -ₙ last) (of_ℕ 100) else of_ℕ 16

-- The announcement of the hard stop.
unfoldable pub announced : Bool → Screen → Screen
announced was_finished s =
    if s.rig.finished && not was_finished
    then record s {
      phase = if s.pouring then Phase.settling else s.phase;
      pouring = false;
      notice = some hard_stop_notice;
    }
    else s

-- The end of the settling; `at` is the phase of the last render.
unfoldable pub concluded : Phase → Screen → Screen
concluded at s =
    if is_phase at Phase.settling && is_settled s.rig s.pouring
    then record s { phase = Phase.settled }
    else s

-- The readout, when its time has come: the band of the classification becomes the rarity.
unfoldable pub read_out : Number → Screen → Screen
read_out dt_ms s =
    if readout_ms <=ₙ s.readout_acc +ₙ dt_ms
    then record s {
      readout_acc = of_ℕ 0;
      rarity = classify (telemetry_of s.rig) (of_ℕ s.tier_index);
    }
    else record s { readout_acc = s.readout_acc +ₙ dt_ms }

unfoldable pub stepped :
    (pow : Number → Number → Number) → Number → Number → Number → Screen → Screen
stepped pow dt_ms width height s =
    let input : RigInput = record {
      pouring = s.pouring;
      lean = s.lean;
      tier = tier_at (of_ℕ s.tier_index);
    } in
    record s { rig = step_rig pow s.rig input dt_ms width height }

-- A frame of the loop, for a canvas of this size.
unfoldable pub frame : (pow : Number → Number → Number) → Number → Number → Number → Screen → Screen
frame pow now width height s =
    let dt_ms = frame_ms s.last now in
    let after = stepped pow dt_ms width height (record s { last = now }) in
    read_out dt_ms (concluded s.phase (announced s.rig.finished after))

-- How many tiers are offered, for the highest that the deployment mints, from zero on.
unfoldable pub offered : ℕ → ℕ
offered max_tier_index = min (max_tier_index + 1) 6

-- The arrow keys, down or up.
unfoldable pub traverse : ℕ → Bool → Screen → Screen
traverse max_tier_index down s =
    let n = offered max_tier_index in
    if is_phase s.phase Phase.idle
    then record s { tier_index = (s.tier_index + (if down then 1 else n - 1)) % n }
    else s

-- `startedAt ?? Date.now()`.
abbrev pub since : Option Number → Number → Number
since none now = now
since (some t) now = t

-- The request that the seal button sends.
unfoldable pub request_of : Number → Screen → MintRequest
request_of now s = record {
  tier_index = of_ℕ s.tier_index;
  timestamp_ms = since s.started_at now;
  telemetry = telemetry_of s.rig;
}

-- `onOrient`: the lean, for a finite angle of the device.
unfoldable pub on_orient : Number → Screen → Screen
on_orient gamma s = record s {
  lean = max_number (neg (of_ℕ 1)) (min_number (of_ℕ 1) (gamma /ₙ of_ℕ 45));
}

-- `onPointerMove`: the lean follows the pointer across the stage while the stream is open.
unfoldable pub on_pointer_move : Number → Number → Number → Screen → Screen
on_pointer_move client_x left width s =
    let across = ((client_x -ₙ left) /ₙ width -ₙ ratio 5 10) *ₙ of_ℕ 2 in
    if s.pouring
    then record s { lean = max_number (neg (of_ℕ 1)) (min_number (of_ℕ 1) across) }
    else s

-- `onKeyDown` and `onKeyUp` of the stage; `holds` says whether the key is the space bar or Enter.
unfoldable pub on_key_down : Bool → Number → Screen → Screen
on_key_down holds now s = if holds then open_stream now s else s

unfoldable pub on_key_up : Bool → Screen → Screen
on_key_up holds s = if holds then close_stream s else s

-- The click on a tier row, which is live on an idle vessel and up to the highest tier.
unfoldable pub pick_tier : ℕ → ℕ → Screen → Screen
pick_tier max_tier_index index s =
    if is_phase s.phase Phase.idle && not (ltb max_tier_index index)
    then record s { tier_index = index }
    else s

-- The seal button: a request, where the button is live.
unfoldable pub seal_request : Bool → Number → Screen → Option MintRequest
seal_request sealing now s =
    if not (is_phase s.phase Phase.settled) || sealing then none else some (request_of now s)

-- What can happen to the screen.
pub data ScreenEvent : Type 0 where
  stream_opened : Number → ScreenEvent
  stream_closed : ScreenEvent
  discarded : ScreenEvent
  framed : Number → Number → Number → ScreenEvent
  oriented : Number → ScreenEvent
  traversed : ℕ → Bool → ScreenEvent
  steered : Number → Number → Number → ScreenEvent
  key_pressed : Bool → Number → ScreenEvent
  key_released : Bool → ScreenEvent
  tier_clicked : ℕ → ℕ → ScreenEvent

unfoldable pub respond : (pow : Number → Number → Number) → ScreenEvent → Screen → Screen
respond pow (stream_opened now) s = open_stream now s
respond pow stream_closed s = close_stream s
respond pow discarded s = discard s
respond pow (framed now width height) s = frame pow now width height s
respond pow (oriented gamma) s = on_orient gamma s
respond pow (traversed max_tier_index down) s = traverse max_tier_index down s
respond pow (steered client_x left width) s = on_pointer_move client_x left width s
respond pow (key_pressed holds now) s = on_key_down holds now s
respond pow (key_released holds) s = on_key_up holds s
respond pow (tier_clicked max_tier_index index) s = pick_tier max_tier_index index s
