-- ===== src/Screen/Begun.antt =====
-- `PourScreen`, idle with nothing poured or else with a start noted: the invariant, and what it gives
-- in each phase.
use moltenpour.Prelude.{
  ℕ, Bool, true, false, ◌≡◌, refl, inl, Option, none, some, List, [], ◌∷◌, All, zero, suc, map,
}
use moltenpour.Number.{Number, of_ℕ, floor, running}
use moltenpour.Text.{Text}
use moltenpour.Telemetry.{Telemetry}
use moltenpour.Rarity.{Rarity}
use moltenpour.Rig.{
  Blob, Rig, create_rig, reset_rig, free_slot, free_slots, max_blobs, telemetry_of,
}
use moltenpour.Rig.Settled.{IsQuiet, AreQuiet}
use moltenpour.Shell.{Phase}
use moltenpour.Screen.Defs.{Screen, mounted, is_phase, or_now, discard}

-- What the rig reports before anything was poured.
abbrev pub empty_pour : Telemetry
empty_pour = record {
  droplets_landed = of_ℕ 0;
  peak_velocity = of_ℕ 0;
  tilt_energy = of_ℕ 0;
  hold_ms = of_ℕ 0;
}

pub record Blank (pouring : Bool) (started_at : Option Number) (rig : Rig) : Type 0 where
  pub shut : pouring ≡ false
  pub unstarted : started_at ≡ none
  pub quiet : AreQuiet rig
  pub empty : telemetry_of rig ≡ empty_pour

abbrev pub IsStarted : Option Number → Type 0
IsStarted started_at = (t : Number) × (started_at ≡ some t)

-- Blank in the idle phase, and started in every other.
abbrev pub Begun : Phase → Bool → Option Number → Rig → Type 0
Begun Phase.idle pouring started_at rig = Blank pouring started_at rig
Begun Phase.pouring pouring started_at rig = IsStarted started_at
Begun Phase.settling pouring started_at rig = IsStarted started_at
Begun Phase.settled pouring started_at rig = IsStarted started_at

abbrev pub IsBegun : Screen → Type 0
IsBegun s = Begun s.phase s.pouring s.started_at s.rig

free_slot-IsQuiet : IsQuiet free_slot
unfolding free_slot running
free_slot-IsQuiet = inl refl

free_slots-IsQuiet : (n : ℕ) → All IsQuiet (free_slots n)
unfolding free_slots
free_slots-IsQuiet zero = tt
free_slots-IsQuiet (suc n) = (free_slot-IsQuiet, free_slots-IsQuiet n)

cleared-IsQuiet : (bs : List Blob) → All IsQuiet (map (λ b. free_slot) bs)
cleared-IsQuiet [] = tt
cleared-IsQuiet (b ∷ bs) = (free_slot-IsQuiet, cleared-IsQuiet bs)

floor_zero : floor (of_ℕ 0) ≡ of_ℕ 0
unfolding running
floor_zero = refl

pub mounted-IsBegun :
    (rarity : Rarity) (notice : Option Text) (tier_index : ℕ)
    → IsBegun (mounted Phase.idle rarity notice tier_index)
unfolding mounted create_rig telemetry_of
mounted-IsBegun rarity notice tier_index = record {
  shut = refl;
  unstarted = refl;
  quiet = free_slots-IsQuiet max_blobs;
  empty = λ i. record empty_pour { hold_ms = floor_zero i };
}

pub discard-IsBegun : (s : Screen) → IsBegun (discard s)
unfolding discard reset_rig telemetry_of
discard-IsBegun s = record {
  shut = refl;
  unstarted = refl;
  quiet = cleared-IsQuiet s.rig.blobs;
  empty = λ i. record empty_pour { hold_ms = floor_zero i };
}

pub or_now-IsStarted : (o : Option Number) (now : Number) → IsStarted (or_now o now)
or_now-IsStarted none now = (now, refl)
or_now-IsStarted (some t) now = (t, refl)

-- Where the phase is not idle, a start is all that is asked.
pub running-Begun :
    (p : Phase) (b : Bool) (o : Option Number) (r : Rig)
    → is_phase p Phase.pouring ≡ true
    → IsStarted o
    → Begun p b o r
running-Begun Phase.idle b o r e h = cc
running-Begun Phase.pouring b o r e h = h
running-Begun Phase.settling b o r e h = h
running-Begun Phase.settled b o r e h = h

pub Begun-settling :
    (p : Phase) (b : Bool) (o : Option Number) (r : Rig)
    → is_phase p Phase.settling ≡ true
    → Begun p b o r
    → IsStarted o
Begun-settling Phase.idle b o r e h = cc
Begun-settling Phase.pouring b o r e h = h
Begun-settling Phase.settling b o r e h = h
Begun-settling Phase.settled b o r e h = h

pub Begun-open :
    (p : Phase) (b : Bool) (o : Option Number) (r : Rig) → b ≡ true → Begun p b o r → IsStarted o
Begun-open Phase.idle b o r e h = cc (h.shut, e)
Begun-open Phase.pouring b o r e h = h
Begun-open Phase.settling b o r e h = h
Begun-open Phase.settled b o r e h = h

pub Begun-shut :
    (p : Phase) (b : Bool) (o : Option Number) (r : Rig) → Begun p b o r → Begun p false o r
Begun-shut Phase.idle b o r h = record {
  shut = refl;
  unstarted = h.unstarted;
  quiet = h.quiet;
  empty = h.empty;
}
Begun-shut Phase.pouring b o r h = h
Begun-shut Phase.settling b o r h = h
Begun-shut Phase.settled b o r h = h
