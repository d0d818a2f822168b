-- ===== src/Screen/Fresh.antt =====
-- A pour starts from nothing: what the idle phase says of the refs of the screen.
use moltenpour.Prelude.{
  ℕ, Bool, true, false, not, ◌&&◌, ◌≡◌, ◌↔◌, ◌⊎◌, ◌∙◌, refl, sym, subst, Bool-cases, inl, inr,
  if◌then◌else◌, ltb, Option, none, List, [], ◌∷◌,
}
use moltenpour.Number.{Number}
use moltenpour.Text.{Text}
use moltenpour.Rarity.{Rarity}
use moltenpour.Rig.{Rig, telemetry_of, is_settled}
use moltenpour.Shell.{Phase}
use moltenpour.Screen.Defs.{
  Screen, mounted, is_phase, or_now, opened, open_stream, close_stream, announced, concluded,
  read_out, stepped, frame, frame_ms, traverse, on_orient, ScreenEvent, stream_opened,
  stream_closed, discarded, framed, oriented, traversed, steered, key_pressed, key_released,
  tier_clicked, on_pointer_move, on_key_down, on_key_up, pick_tier, respond,
}
use moltenpour.Screen.Phases.{stepped-still, either}
use moltenpour.Screen.Kept.{respond_all}
use moltenpour.Screen.Begun.{
  empty_pour, IsStarted, Begun, IsBegun, mounted-IsBegun, discard-IsBegun, or_now-IsStarted,
  running-Begun, Begun-settling, Begun-open, Begun-shut,
}

opened-IsBegun : (now : Number) (s : Screen) → IsBegun (opened now s)
unfolding opened
opened-IsBegun now s =
    let started = or_now-IsStarted s.started_at now in
    elim (Bool-cases (is_phase s.phase Phase.pouring)) [
      | inl on ↦ rw on (running-Begun s.phase true (or_now s.started_at now) s.rig on started)
      | inr off ↦ rw off started
    ]

open_stream-IsBegun : (now : Number) (s : Screen) → IsBegun s → IsBegun (open_stream now s)
unfolding open_stream
open_stream-IsBegun now s h = either (λ t. IsBegun t) _ s (opened now s) h (opened-IsBegun now s)

close_stream-IsBegun : (s : Screen) → IsBegun s → IsBegun (close_stream s)
unfolding close_stream
close_stream-IsBegun s h = elim (Bool-cases s.pouring) [
  | inl on ↦ rw on (Begun-open s.phase s.pouring s.started_at s.rig on h)
  | inr off ↦ rw off (Begun-shut s.phase s.pouring s.started_at s.rig h)
]

stepped-IsBegun :
    (pow : Number → Number → Number) (dt_ms width height : Number) (s : Screen) (p : Phase)
    → s.phase ≡ p
    → IsBegun s
    → Begun p s.pouring s.started_at (stepped pow dt_ms width height s).rig
stepped-IsBegun pow dt_ms width height s p e h = kept p (subst (λ q. At q s.rig) e h)
  where
    At : Phase → Rig → Type 0
    At q r = Begun q s.pouring s.started_at r

    kept : (q : Phase) → At q s.rig → At q (stepped pow dt_ms width height s).rig
    kept Phase.idle b =
        let (quiet, same) = stepped-still pow dt_ms width height s b.shut b.quiet in
        record { shut = b.shut; unstarted = b.unstarted; quiet = quiet; empty = same ∙ b.empty }
    kept Phase.pouring b = b
    kept Phase.settling b = b
    kept Phase.settled b = b

announced-IsBegun : (was : Bool) (s : Screen) → IsBegun s → IsBegun (announced was s)
unfolding announced
announced-IsBegun was s h = elim (Bool-cases (s.rig.finished && not was)) [
  | inl stop ↦ rw stop (halted (Bool-cases s.pouring))
  | inr go ↦ rw go h
]
  where
    halted :
        ((s.pouring ≡ true) ⊎ (s.pouring ≡ false))
        → Begun (if s.pouring then Phase.settling else s.phase) false s.started_at s.rig
    halted (inl on) = rw on (Begun-open s.phase s.pouring s.started_at s.rig on h)
    halted (inr off) = rw off (Begun-shut s.phase s.pouring s.started_at s.rig h)

announced-started : (was : Bool) (s : Screen) → (announced was s).started_at ≡ s.started_at
unfolding announced
announced-started was s = elim (Bool-cases (s.rig.finished && not was)) [
  | inl stop ↦ rw stop
  | inr go ↦ rw go
]

concluded-IsBegun :
    (at : Phase) (s : Screen)
    → (is_phase at Phase.settling ≡ true → IsStarted s.started_at)
    → IsBegun s
    → IsBegun (concluded at s)
unfolding concluded
concluded-IsBegun at s started h =
    elim (Bool-cases (is_phase at Phase.settling && is_settled s.rig s.pouring)) [
      | inl done ↦ rw done (started (first (is_phase at Phase.settling) _ done))
      | inr more ↦ rw more h
    ]
  where
    first : (a b : Bool) → (a && b) ≡ true → a ≡ true
    first true b e = refl
    first false b e = cc

frame-IsBegun :
    (pow : Number → Number → Number) (now width height : Number) (s : Screen)
    → IsBegun s
    → IsBegun (frame pow now width height s)
unfolding frame read_out
frame-IsBegun pow now width height s h =
    let t : Screen = record s { last = now } in
    let after = stepped pow (frame_ms s.last now) width height t in
    let heard = announced s.rig.finished after in
    let begun : IsBegun after =
      unfold stepped in stepped-IsBegun pow (frame_ms s.last now) width height t s.phase refl h in
    let ended =
      concluded-IsBegun s.phase heard
        (λ e.
          subst IsStarted (sym (announced-started s.rig.finished after))
            (unfold stepped in Begun-settling s.phase s.pouring s.started_at s.rig e h))
        (announced-IsBegun s.rig.finished after begun) in
    either (λ u. IsBegun u) _ _ _ ended ended

respond-IsBegun :
    (pow : Number → Number → Number) (e : ScreenEvent) (s : Screen)
    → IsBegun s
    → IsBegun (respond pow e s)
unfolding respond
respond-IsBegun pow (stream_opened now) s h = open_stream-IsBegun now s h
respond-IsBegun pow stream_closed s h = close_stream-IsBegun s h
respond-IsBegun pow discarded s h = discard-IsBegun s
respond-IsBegun pow (framed now width height) s h = frame-IsBegun pow now width height s h
respond-IsBegun pow (oriented gamma) s h = unfold on_orient in h
respond-IsBegun pow (traversed most down) s h =
    unfold traverse in either (λ t. IsBegun t) (is_phase s.phase Phase.idle) _ s h h
respond-IsBegun pow (steered client_x left width) s h =
    unfold on_pointer_move in either (λ t. IsBegun t) s.pouring _ s h h
respond-IsBegun pow (key_pressed holds now) s h =
    unfold on_key_down in either (λ t. IsBegun t) holds _ s (open_stream-IsBegun now s h) h
respond-IsBegun pow (key_released holds) s h =
    unfold on_key_up in either (λ t. IsBegun t) holds _ s (close_stream-IsBegun s h) h
respond-IsBegun pow (tier_clicked most index) s h =
    unfold pick_tier in
    either (λ t. IsBegun t) (is_phase s.phase Phase.idle && not (ltb most index)) _ s h h

respond_all-IsBegun :
    (pow : Number → Number → Number) (es : List ScreenEvent) (s : Screen)
    → IsBegun s
    → IsBegun (respond_all pow es s)
respond_all-IsBegun pow [] s h = h
respond_all-IsBegun pow (e ∷ es) s h =
    respond_all-IsBegun pow es (respond pow e s) (respond-IsBegun pow e s h)

Begun-idle_iff :
    (p : Phase) (b : Bool) (o : Option Number) (r : Rig)
    → Begun p b o r
    → (p ≡ Phase.idle) ↔ ((b ≡ false) × (o ≡ none) × (telemetry_of r ≡ empty_pour))
Begun-idle_iff Phase.idle b o r h = (λ e. (h.shut, h.unstarted, h.empty), λ blank. refl)
Begun-idle_iff Phase.pouring b o r (t, e) = (λ q. cc, λ (shut, unstarted, empty). cc)
Begun-idle_iff Phase.settling b o r (t, e) = (λ q. cc, λ (shut, unstarted, empty). cc)
Begun-idle_iff Phase.settled b o r (t, e) = (λ q. cc, λ (shut, unstarted, empty). cc)

-- On a screen that came onto the page in the idle phase, after any events, discards among them, the
-- phase is idle exactly when the stream is shut, no start is noted and the rig reports an empty pour.
pub mounted-fresh :
    (pow : Number → Number → Number) (es : List ScreenEvent) (rarity : Rarity)
    (notice : Option Text) (tier_index : ℕ)
    → let s = respond_all pow es (mounted Phase.idle rarity notice tier_index) in
      (s.phase ≡ Phase.idle)
      ↔ ((s.pouring ≡ false) × (s.started_at ≡ none) × (telemetry_of s.rig ≡ empty_pour))
mounted-fresh pow es rarity notice tier_index =
    let s = respond_all pow es (mounted Phase.idle rarity notice tier_index) in
    Begun-idle_iff s.phase s.pouring s.started_at s.rig
      (respond_all-IsBegun pow es _ (mounted-IsBegun rarity notice tier_index))
