-- ===== src/Shell/Tests.antt =====
-- A settled pour, sealed in both orders, and a state that a run comes to.
use moltenpour.Prelude.{◌≡◌, refl, [], ◌∷◌, false}
use moltenpour.Number.{of_ℕ}
use moltenpour.Text.{codes}
use moltenpour.Record.{PourRecord, MintRequest}
use moltenpour.Rarity.{Rarity}
use moltenpour.Telemetry.Tests.{wild_clamped}
use moltenpour.Shell.Defs.{
  Phase, fulfilled, Shell, initial, seal_pressed, seal_over, mint_answered, on_phase, handle,
}
use moltenpour.Shell.Seal.{run, sealed, IsSealable, seal_lem}
use moltenpour.Shell.Ends.{seal_ends}
use moltenpour.Shell.Invariant.{IsSound, Reachable, Reachable-IsSound}

abbrev request : MintRequest
request = record { tier_index = of_ℕ 0; timestamp_ms = of_ℕ 7; telemetry = wild_clamped }

abbrev pub minted : PourRecord
minted = record {
  id = codes "a1";
  ledger_position = of_ℕ 1;
  tier_index = of_ℕ 0;
  amount_cents = of_ℕ 0;
  timestamp_ms = of_ℕ 7;
  telemetry = wild_clamped;
  violations = [];
  seed = of_ℕ 9;
  rarity = Rarity.common;
  rarity_score = of_ℕ 372;
  serial = codes "MP-1";
  batch = codes "B7";
  mass_grams = of_ℕ 31;
  issued = codes "2026-01-02";
}

abbrev pub settled_shell : Shell
unfolding initial
settled_shell = record initial { phase = Phase.settled }

settled_shell-IsSealable : IsSealable settled_shell
unfolding initial
settled_shell-IsSealable = record { settled = refl; unsealed = refl; grounded = refl }

seal_example :
    (run (seal_pressed request ∷ mint_answered (fulfilled minted) ∷ seal_over ∷ []) settled_shell
      ≡ sealed (fulfilled minted) settled_shell)
    × (run (seal_pressed request ∷ seal_over ∷ mint_answered (fulfilled minted) ∷ []) settled_shell
        ≡ sealed (fulfilled minted) settled_shell)
seal_example = seal_lem settled_shell request (fulfilled minted) settled_shell-IsSealable

Reachable-IsSound_example :
    IsSound (handle (seal_pressed request) (handle (on_phase Phase.settled) initial))
Reachable-IsSound_example =
    Reachable-IsSound (handle (seal_pressed request) (handle (on_phase Phase.settled) initial)) (
      Reachable.step (seal_pressed request)
        (Reachable.step (on_phase Phase.settled) Reachable.start))

seal_ends_example :
    ((handle (mint_answered (fulfilled minted)) (
        handle seal_over
          (handle (seal_pressed request) (handle (on_phase Phase.settled) initial)))).sealing
      ≡ false)
    × ((handle seal_over (
          handle
            (mint_answered (fulfilled minted))
            (handle (seal_pressed request) (handle (on_phase Phase.settled) initial)))).sealing
        ≡ false)
seal_ends_example =
    seal_ends (handle (seal_pressed request) (handle (on_phase Phase.settled) initial))
      (fulfilled minted)
      (Reachable.step (seal_pressed request)
        (Reachable.step (on_phase Phase.settled) Reachable.start))
