-- ===== src/Screen/Phases.antt =====
-- A settled pour stays what it is until it is discarded.
use moltenpour.Prelude.{
  ℕ, Bool, true, false, not, ◌&&◌, ◌||◌, ◌≡◌, ◌⊎◌, refl, sym, subst, Bool-cases, inl, inr,
  if◌then◌else◌, ltb,
}
use moltenpour.Number.{Number, of_ℕ, ◌<=ₙ◌, ◌+ₙ◌}
use moltenpour.Tiers.{tier_at}
use moltenpour.Rig.{Rig, RigInput, step_rig, is_settled, telemetry_of}
use moltenpour.Rig.Settled.{AreQuiet, tick-still}
use moltenpour.Rig.Frozen.{swept-quiet, grounded}
use moltenpour.Shell.{Phase}
use moltenpour.Screen.Defs.{
  Screen, is_phase, opened, open_stream, close_stream, discard, announced, concluded, read_out,
  readout_ms, stepped, frame, frame_ms, traverse, on_orient, ScreenEvent, stream_opened,
  stream_closed, discarded, framed, oriented, traversed, steered, key_pressed, key_released,
  tier_clicked, on_pointer_move, on_key_down, on_key_up, pick_tier, respond,
}

-- In the settled phase the stream is shut and no blob is in the air.
abbrev pub Orderly : Phase → Bool → Rig → Type 0
Orderly Phase.settled pouring rig = (pouring ≡ false) × AreQuiet rig
Orderly phase pouring rig = Unit

abbrev pub IsOrderly : Screen → Type 0
IsOrderly s = Orderly s.phase s.pouring s.rig

Orderly-shut : (p : Phase) (b : Bool) (r : Rig) → Orderly p b r → Orderly p false r
Orderly-shut Phase.idle b r h = tt
Orderly-shut Phase.pouring b r h = tt
Orderly-shut Phase.settling b r h = tt
Orderly-shut Phase.settled b r (shut, quiet) = (refl, quiet)

Orderly-running : (p : Phase) (b : Bool) (r : Rig) → is_phase p Phase.pouring ≡ true → Orderly p b r
Orderly-running Phase.idle b r h = cc
Orderly-running Phase.pouring b r h = tt
Orderly-running Phase.settling b r h = cc
Orderly-running Phase.settled b r h = cc

opened-IsOrderly : (now : Number) (s : Screen) → IsOrderly (opened now s)
unfolding opened
opened-IsOrderly now s = elim (Bool-cases (is_phase s.phase Phase.pouring)) [
  | inl on ↦ rw on (Orderly-running s.phase true s.rig on)
  | inr off ↦ rw off tt
]

open_stream-IsOrderly : (now : Number) (s : Screen) → IsOrderly s → IsOrderly (open_stream now s)
unfolding open_stream
open_stream-IsOrderly now s h =
    elim (Bool-cases (is_phase s.phase Phase.settled || s.rig.finished || s.pouring)) [
      | inl kept ↦ rw kept h
      | inr free ↦ rw free (opened-IsOrderly now s)
    ]

close_stream-IsOrderly : (s : Screen) → IsOrderly s → IsOrderly (close_stream s)
unfolding close_stream
close_stream-IsOrderly s h = elim (Bool-cases s.pouring) [
  | inl on ↦ rw on tt
  | inr off ↦ rw off (Orderly-shut s.phase s.pouring s.rig h)
]

-- A frame of a shut stream over quiet slots.
module _ (pow : Number → Number → Number) (dt_ms width height : Number) where
  pub stepped-still :
      (s : Screen)
      → s.pouring ≡ false
      → AreQuiet s.rig
      → AreQuiet (stepped pow dt_ms width height s).rig
        × (telemetry_of (stepped pow dt_ms width height s).rig ≡ telemetry_of s.rig)
  unfolding stepped
  stepped-still s shut quiet =
      let input : RigInput = record {
        pouring = s.pouring;
        lean = s.lean;
        tier = tier_at (of_ℕ s.tier_index);
      } in
      tick-still pow (record { input = input; dt_ms = dt_ms; width = width; height = height }) s.rig
        shut quiet

  stepped-settled :
      (s : Screen)
      → is_settled (stepped pow dt_ms width height s).rig false ≡ true
      → AreQuiet (stepped pow dt_ms width height s).rig
  unfolding stepped step_rig
  stepped-settled s h = swept-quiet _ _ (grounded _ h)

  stepped-IsOrderly :
      (s : Screen) (p : Phase)
      → s.phase ≡ p
      → IsOrderly s
      → Orderly p s.pouring (stepped pow dt_ms width height s).rig
  stepped-IsOrderly s Phase.idle e h = tt
  stepped-IsOrderly s Phase.pouring e h = tt
  stepped-IsOrderly s Phase.settling e h = tt
  stepped-IsOrderly s Phase.settled e h =
      let (shut, quiet) : Orderly Phase.settled s.pouring s.rig =
        subst (λ p. Orderly p s.pouring s.rig) e h in
      (shut, (stepped-still s shut quiet).0)

announced-IsOrderly : (was : Bool) (s : Screen) → IsOrderly s → IsOrderly (announced was s)
unfolding announced
announced-IsOrderly was s h = elim (Bool-cases (s.rig.finished && not was)) [
  | inl stop ↦ rw stop (halted (Bool-cases s.pouring))
  | inr go ↦ rw go h
]
  where
    halted :
        ((s.pouring ≡ true) ⊎ (s.pouring ≡ false))
        → Orderly (if s.pouring then Phase.settling else s.phase) false s.rig
    halted (inl on) = rw on tt
    halted (inr off) = rw off (Orderly-shut s.phase s.pouring s.rig h)

settled-shut : (rig : Rig) (pouring : Bool) → is_settled rig pouring ≡ true → pouring ≡ false
unfolding is_settled
settled-shut rig true h = cc
settled-shut rig false h = refl

concluded-IsOrderly :
    (at : Phase) (s : Screen)
    → (is_settled s.rig false ≡ true → AreQuiet s.rig)
    → IsOrderly s
    → IsOrderly (concluded at s)
unfolding concluded
concluded-IsOrderly at s quiet h =
    elim (Bool-cases (is_phase at Phase.settling && is_settled s.rig s.pouring)) [
      | inl done ↦ rw done (
        settled-shut s.rig s.pouring (second (is_phase at Phase.settling) _ done),
        quiet (
            subst (λ b. is_settled s.rig b ≡ true)
              (settled-shut s.rig s.pouring (second (is_phase at Phase.settling) _ done))
              (second (is_phase at Phase.settling) _ done)),
      )
      | inr more ↦ rw more h
    ]
  where
    second : (a b : Bool) → (a && b) ≡ true → b ≡ true
    second true b h = h
    second false b h = cc

read_out-IsOrderly : (dt_ms : Number) (s : Screen) → IsOrderly s → IsOrderly (read_out dt_ms s)
unfolding read_out
read_out-IsOrderly dt_ms s h = elim (Bool-cases (readout_ms <=ₙ s.readout_acc +ₙ dt_ms)) [
  | inl due ↦ rw due h
  | inr wait ↦ rw wait h
]

pub announced-rig : (was : Bool) (s : Screen) → (announced was s).rig ≡ s.rig
unfolding announced
announced-rig was s = elim (Bool-cases (s.rig.finished && not was)) [
  | inl stop ↦ rw stop
  | inr go ↦ rw go
]

frame-IsOrderly :
    (pow : Number → Number → Number) (now width height : Number) (s : Screen)
    → IsOrderly s
    → IsOrderly (frame pow now width height s)
unfolding frame
frame-IsOrderly pow now width height s h =
    let dt_ms = frame_ms s.last now in
    let t : Screen = record s { last = now } in
    let after = stepped pow dt_ms width height t in
    let orderly : IsOrderly after =
      unfold stepped in stepped-IsOrderly pow dt_ms width height t t.phase refl h in
    read_out-IsOrderly dt_ms _ (
      concluded-IsOrderly s.phase (announced s.rig.finished after)
        (λ e. subst AreQuiet (sym (announced-rig s.rig.finished after)) (
          stepped-settled pow dt_ms width height t
            (subst (λ r. is_settled r false ≡ true) (announced-rig s.rig.finished after) e)))
        (announced-IsOrderly s.rig.finished after orderly))

traverse-IsOrderly :
    (most : ℕ) (down : Bool) (s : Screen) → IsOrderly s → IsOrderly (traverse most down s)
unfolding traverse
traverse-IsOrderly most down s h = elim (Bool-cases (is_phase s.phase Phase.idle)) [
  | inl free ↦ rw free h
  | inr busy ↦ rw busy h
]

-- What holds of both branches holds of the test.
pub either : (P : Screen → Type 0) (b : Bool) (s t : Screen) → P s → P t → P (if b then s else t)
either P true s t p q = p
either P false s t p q = q

pub respond-IsOrderly :
    (pow : Number → Number → Number) (e : ScreenEvent) (s : Screen)
    → IsOrderly s
    → IsOrderly (respond pow e s)
unfolding respond
respond-IsOrderly pow (stream_opened now) s h = open_stream-IsOrderly now s h
respond-IsOrderly pow stream_closed s h = close_stream-IsOrderly s h
respond-IsOrderly pow discarded s h = unfold discard in tt
respond-IsOrderly pow (framed now width height) s h = frame-IsOrderly pow now width height s h
respond-IsOrderly pow (oriented gamma) s h = unfold on_orient in h
respond-IsOrderly pow (traversed most down) s h = traverse-IsOrderly most down s h
respond-IsOrderly pow (steered client_x left width) s h =
    unfold on_pointer_move in either (λ t. IsOrderly t) s.pouring _ s h h
respond-IsOrderly pow (key_pressed true now) s h =
    unfold on_key_down in open_stream-IsOrderly now s h
respond-IsOrderly pow (key_pressed false now) s h = unfold on_key_down in h
respond-IsOrderly pow (key_released true) s h = unfold on_key_up in close_stream-IsOrderly s h
respond-IsOrderly pow (key_released false) s h = unfold on_key_up in h
respond-IsOrderly pow (tier_clicked most index) s h =
    unfold pick_tier in
    either (λ t. IsOrderly t) (is_phase s.phase Phase.idle && not (ltb most index)) _ s h h
