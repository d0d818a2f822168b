-- ===== src/Screen/Kept.antt =====
-- What the seal button sends is what was poured.
use moltenpour.Prelude.{
  Bool, true, false, not, ◌&&◌, ◌||◌, ◌≡◌, refl, ap, ◌∙◌, sym, subst, Bool-cases, inl, inr,
  if◌then◌else◌, ltb, List, [], ◌∷◌, All,
}
use moltenpour.Number.{Number, of_ℕ, ◌<=ₙ◌, ◌+ₙ◌}
use moltenpour.Rig.{telemetry_of}
use moltenpour.Rig.Settled.{AreQuiet}
use moltenpour.Shell.{Phase}
use moltenpour.Screen.Defs.{
  Screen, is_phase, since, open_stream, close_stream, announced, concluded, read_out, readout_ms,
  stepped, frame, frame_ms, traverse, on_orient, request_of, ScreenEvent, stream_opened,
  stream_closed, discarded, framed, oriented, traversed, steered, key_pressed, key_released,
  tier_clicked, on_pointer_move, on_key_down, on_key_up, pick_tier, respond,
}
use moltenpour.Screen.Phases.{Orderly, IsOrderly, stepped-still, respond-IsOrderly}

abbrev pub respond_all : (pow : Number → Number → Number) → List ScreenEvent → Screen → Screen
respond_all pow [] s = s
respond_all pow (e ∷ es) s = respond_all pow es (respond pow e s)

-- The screens that events lead to, from one in the idle phase.
pub data ScreenReachable (pow : Number → Number → Number) : Screen → Type 0 where
  start : (s : Screen) → s.phase ≡ Phase.idle → ScreenReachable pow s
  step :
      {s : Screen} (e : ScreenEvent) → ScreenReachable pow s → ScreenReachable pow (respond pow e s)

ScreenReachable-IsOrderly :
    (pow : Number → Number → Number) (s : Screen) → ScreenReachable pow s → IsOrderly s
ScreenReachable-IsOrderly pow s (ScreenReachable.start t e) =
    subst (λ p. Orderly p s.pouring s.rig) (sym e) tt
ScreenReachable-IsOrderly pow s (ScreenReachable.step {s = t} e r) =
    respond-IsOrderly pow e t (ScreenReachable-IsOrderly pow t r)

-- Any event but a discard.
abbrev pub is_kind : ScreenEvent → Bool
is_kind discarded = false
is_kind e = true

abbrev pub AreKind : List ScreenEvent → Type 0
AreKind es = All (λ e. is_kind e ≡ true) es

-- A settled screen that reports as another one does.
record Keeps (s t : Screen) : Type 0 where
  phase : t.phase ≡ Phase.settled
  telemetry : telemetry_of t.rig ≡ telemetry_of s.rig
  started : t.started_at ≡ s.started_at
  tier : t.tier_index ≡ s.tier_index

same : (s : Screen) → s.phase ≡ Phase.settled → Keeps s s
same s e = record { phase = e; telemetry = refl; started = refl; tier = refl }

shut_and_quiet :
    (s : Screen) → s.phase ≡ Phase.settled → IsOrderly s → (s.pouring ≡ false) × AreQuiet s.rig
shut_and_quiet s e h = subst (λ p. Orderly p s.pouring s.rig) e h

announced-Keeps :
    (was : Bool) (s t : Screen) → t.pouring ≡ false → Keeps s t → Keeps s (announced was t)
unfolding announced
announced-Keeps was s t shut k = elim (Bool-cases (t.rig.finished && not was)) [
  | inl stop ↦ rw stop (record {
    phase = rw shut k.phase;
    telemetry = k.telemetry;
    started = k.started;
    tier = k.tier;
  })
  | inr go ↦ rw go k
]

concluded-Keeps : (s t : Screen) → Keeps s t → Keeps s (concluded Phase.settled t)
unfolding concluded
concluded-Keeps s t k = k

read_out-Keeps : (dt_ms : Number) (s t : Screen) → Keeps s t → Keeps s (read_out dt_ms t)
unfolding read_out
read_out-Keeps dt_ms s t k = elim (Bool-cases (readout_ms <=ₙ t.readout_acc +ₙ dt_ms)) [
  | inl due ↦
      rw due
        (record { phase = k.phase; telemetry = k.telemetry; started = k.started; tier = k.tier })
  | inr wait ↦
      rw wait
        (record { phase = k.phase; telemetry = k.telemetry; started = k.started; tier = k.tier })
]

stepped-Keeps :
    (pow : Number → Number → Number) (dt_ms now width height : Number) (s : Screen)
    → s.phase ≡ Phase.settled
    → IsOrderly s
    → Keeps s (stepped pow dt_ms width height (record s { last = now }))
stepped-Keeps pow dt_ms now width height s e h =
    let (shut, quiet) = shut_and_quiet s e h in
    let still = (stepped-still pow dt_ms width height (record s { last = now }) shut quiet).1 in
    record {
      phase = unfold stepped in e;
      telemetry = still;
      started = unfold stepped in refl;
      tier = unfold stepped in refl;
    }

frame-Keeps :
    (pow : Number → Number → Number) (now width height : Number) (s : Screen)
    → s.phase ≡ Phase.settled
    → IsOrderly s
    → Keeps s (frame pow now width height s)
unfolding frame
frame-Keeps pow now width height s e h =
    let dt_ms = frame_ms s.last now in
    let after = stepped pow dt_ms width height (record s { last = now }) in
    let shut : after.pouring ≡ false = unfold stepped in (shut_and_quiet s e h).0 in
    let heard =
      announced-Keeps s.rig.finished s after shut
        (stepped-Keeps pow dt_ms now width height s e h) in
    read_out-Keeps dt_ms s _ (
      subst (λ p. Keeps s (concluded p (announced s.rig.finished after))) (sym e)
        (concluded-Keeps s _ heard))

-- A test that keeps the screen, and one that passes over a change of it.
then_same :
    (b : Bool) (s t : Screen) → b ≡ true → s.phase ≡ Phase.settled → Keeps s (if b then s else t)
then_same true s t h e = same s e
then_same false s t h e = cc

else_same :
    (b : Bool) (s t : Screen) → b ≡ false → s.phase ≡ Phase.settled → Keeps s (if b then t else s)
else_same true s t h e = cc
else_same false s t h e = same s e

open_stream-Keeps :
    (now : Number) (s : Screen) → s.phase ≡ Phase.settled → Keeps s (open_stream now s)
unfolding open_stream
open_stream-Keeps now s p =
    then_same (is_phase s.phase Phase.settled || s.rig.finished || s.pouring) s _
      (ap (λ q. is_phase q Phase.settled || s.rig.finished || s.pouring) p) p

close_stream-Keeps : (s : Screen) → s.phase ≡ Phase.settled → IsOrderly s → Keeps s (close_stream s)
unfolding close_stream
close_stream-Keeps s p h = else_same s.pouring s _ (shut_and_quiet s p h).0 p

respond-Keeps :
    (pow : Number → Number → Number) (e : ScreenEvent) (s : Screen)
    → is_kind e ≡ true
    → s.phase ≡ Phase.settled
    → IsOrderly s
    → Keeps s (respond pow e s)
unfolding respond
respond-Keeps pow (stream_opened now) s k p h = open_stream-Keeps now s p
respond-Keeps pow stream_closed s k p h = close_stream-Keeps s p h
respond-Keeps pow discarded s k p h = cc
respond-Keeps pow (framed now width height) s k p h = frame-Keeps pow now width height s p h
respond-Keeps pow (oriented gamma) s k p h =
    unfold on_orient in record { phase = p; telemetry = refl; started = refl; tier = refl }
respond-Keeps pow (traversed most down) s k p h =
    unfold traverse in
    else_same (is_phase s.phase Phase.idle) s _ (ap (λ q. is_phase q Phase.idle) p) p
respond-Keeps pow (steered client_x left width) s k p h =
    unfold on_pointer_move in else_same s.pouring s _ (shut_and_quiet s p h).0 p
respond-Keeps pow (key_pressed true now) s k p h = unfold on_key_down in open_stream-Keeps now s p
respond-Keeps pow (key_pressed false now) s k p h = unfold on_key_down in same s p
respond-Keeps pow (key_released true) s k p h = unfold on_key_up in close_stream-Keeps s p h
respond-Keeps pow (key_released false) s k p h = unfold on_key_up in same s p
respond-Keeps pow (tier_clicked most index) s k p h =
    unfold pick_tier in
    else_same (is_phase s.phase Phase.idle && not (ltb most index)) s _
      (ap (λ q. is_phase q Phase.idle && not (ltb most index)) p) p

trans_Keeps : {s t u : Screen} → Keeps s t → Keeps t u → Keeps s u
trans_Keeps a b = record {
  phase = b.phase;
  telemetry = b.telemetry ∙ a.telemetry;
  started = b.started ∙ a.started;
  tier = b.tier ∙ a.tier;
}

respond_all-Keeps :
    (pow : Number → Number → Number) (es : List ScreenEvent) (s : Screen)
    → AreKind es
    → s.phase ≡ Phase.settled
    → IsOrderly s
    → Keeps s (respond_all pow es s)
respond_all-Keeps pow [] s ks p h = same s p
respond_all-Keeps pow (e ∷ es) s (k, ks) p h =
    let first = respond-Keeps pow e s k p h in
    trans_Keeps first
      (respond_all-Keeps pow es (respond pow e s) ks first.phase (respond-IsOrderly pow e s h))

-- Once a pour has settled, no frame, no touch of the vessel or drag across it, no key, no click on a
-- tier and no turn of the device changes what the seal button would send, and the pour stays settled,
-- until it is discarded: the tier, the start time and the telemetry of the request are those that the
-- customer saw settle. The screen is one that events lead to from a screen in the idle phase.
pub request_of-kept :
    (pow : Number → Number → Number) (s : Screen) (es : List ScreenEvent) (now : Number)
    → ScreenReachable pow s
    → s.phase ≡ Phase.settled
    → AreKind es
    → ((respond_all pow es s).phase ≡ Phase.settled)
      × (request_of now (respond_all pow es s) ≡ request_of now s)
request_of-kept pow s es now r p ks =
    let k = respond_all-Keeps pow es s ks p (ScreenReachable-IsOrderly pow s r) in
    (
      k.phase,
      unfold request_of in
          λ i. record {
            tier_index = of_ℕ (k.tier i);
            timestamp_ms = since (k.started i) now;
            telemetry = k.telemetry i;
          },
    )
