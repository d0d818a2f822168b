-- ===== src/Rig/Frozen.antt =====
-- The promise of `isSettled`, and the hard stop.
use moltenpour.Prelude.{
  ℕ, zero, suc, ◌+◌, ◌^◌, ◌≤◌, ◌≡◌, refl, arith, ◌∙◌, sym, subst, inl, inr, Bool, true, false, ◌&&◌,
  ◌==◌, Bool-cases, ==_iff, List, [], ◌∷◌, if◌then◌else◌, All,
}
use moltenpour.Number.{Number, of_ℕ, ◌<=ₙ◌, ◌<ₙ◌}
use moltenpour.Number.UpTo.{UpTo, of_ℕ-UpTo, +-UpTo, min-UpTo}
use moltenpour.Telemetry.Sim
use moltenpour.Rig.Defs.{Rig, is_settled, telemetry_of}
use moltenpour.Rig.Step.{Frame, eased, swept, shut, pour_in, spawn_one, spawn_loop, step_rig}
use moltenpour.Rig.Settled.{Tick, tick, ticks, AreShut, AreQuiet, step_blobs-IsQuiet, ticks-still}

pub swept-quiet : (f : Frame) (rig : Rig) → (swept f rig).airborne ≡ 0 → AreQuiet (swept f rig)
unfolding swept
swept-quiet f rig e = step_blobs-IsQuiet f rig.blobs _ e

pub grounded : (rig : Rig) → is_settled rig false ≡ true → rig.airborne ≡ 0
unfolding is_settled
grounded rig h = (==_iff rig.airborne 0).0 (last (of_ℕ 0 <ₙ rig.hold_ms) (rig.airborne == 0) h)
  where
    last : (a b : Bool) → (a && b) ≡ true → b ≡ true
    last true b h = h
    last false b h = cc

-- Once a frame leaves the rig settled, no run of frames with the stream shut changes what it reports,
-- whatever the stage and the clock do: nothing that is minted can differ from what was seen.
pub is_settled_lem :
    (pow : Number → Number → Number) (rig : Rig) (k : Tick) (ks : List Tick)
    → is_settled (tick pow k rig) false ≡ true
    → AreShut ks
    → telemetry_of (ticks pow ks (tick pow k rig)) ≡ telemetry_of (tick pow k rig)
is_settled_lem pow rig k ks settled h =
    ticks-still pow ks (tick pow k rig) h (quiet (grounded (tick pow k rig) settled))
  where
    quiet : (tick pow k rig).airborne ≡ 0 → AreQuiet (tick pow k rig)
    quiet e = unfold step_rig in swept-quiet _ _ (unfold step_rig in e)

spawn_loop-hold :
    (turns : ℕ) (f : Frame) (lean : Number) (rig : Rig)
    → (spawn_loop turns f lean rig).hold_ms ≡ rig.hold_ms
unfolding spawn_loop
spawn_loop-hold zero f lean rig = refl
spawn_loop-hold (suc turns) f lean rig =
    let rest = spawn_loop-hold turns f lean (spawn_one f lean rig) in
    elim (Bool-cases (of_ℕ 1 <=ₙ rig.spawn_acc)) [
      | inl more ↦ rw more (rest ∙ (unfold spawn_one in refl))
      | inr less ↦ rw less
    ]

-- A clock that never runs backwards, and no frame longer than so many milliseconds.
abbrev pub AreTimed : ℕ → List Tick → Type 0
AreTimed most ks = All (λ k. UpTo most k.dt_ms) ks

tick-hold :
    (pow : Number → Number → Number) (most : ℕ) (k : Tick) (rig : Rig)
    → 15_000 + most ≤ 2 ^ 52
    → UpTo most k.dt_ms
    → UpTo 15_000 rig.hold_ms
    → UpTo 15_000 (tick pow k rig).hold_ms
tick-hold pow most k rig small dt hold = unfold step_rig swept in held _ _
  where
    held :
        (pouring : Bool) (f : Frame)
        → UpTo 15_000
            (if pouring
              then pour_in f k.input k.dt_ms (eased f k.input rig)
              else shut (eased f k.input rig)).hold_ms
    held true f =
        unfold pour_in eased Sim.max_pour_ms in
        subst (λ h. UpTo 15_000 h) (sym (spawn_loop-hold _ f k.input.lean _))
          (min-UpTo (+-UpTo {j = 15_000} {k = most} small hold dt) (of_ℕ-UpTo 15_000))
    held false f = unfold shut eased in hold

-- However long the stream is held open, and whatever the frames are, the hold stays within the hard
-- stop of 15 seconds. No frame is longer than a bound below 2 ^ 51 milliseconds.
pub ticks-hold :
    (pow : Number → Number → Number) (most : ℕ) (ks : List Tick) (rig : Rig)
    → most ≤ 2 ^ 51
    → AreTimed most ks
    → UpTo 15_000 rig.hold_ms
    → UpTo 15_000 (ticks pow ks rig).hold_ms
ticks-hold pow most [] rig small h hold = hold
ticks-hold pow most (k ∷ ks) rig small (dt, dts) hold =
    ticks-hold pow most ks (tick pow k rig) small dts
      (tick-hold pow most k rig (omega arith) dt hold)
