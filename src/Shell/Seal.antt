-- ===== src/Shell/Seal.antt =====
-- The seal: what a mint does to the shell, in whichever order its timer and its answer come.
use moltenpour.Prelude.{none, some, false, ◌≡◌, refl, ap, ◌∙◌, sym, List, [], ◌∷◌}
use moltenpour.Record.{PourRecord, MintRequest}
use moltenpour.Rarity.{Rarity}
use moltenpour.Shell.Defs.{
  View, Phase, Settled, fulfilled, rejected, Shell, mint, finish, await, advance, on_flight,
  with_flight, is_settled_phase, seal_elapsed, mint_settled, seal, mint_notice, Event, seal_pressed,
  seal_over, mint_answered, handle,
}

-- The events of a list, one after the other.
abbrev pub run : List Event → Shell → Shell
run [] s = s
run (e ∷ es) s = run es (handle e s)

-- A pour that can be sealed.
pub record IsSealable (s : Shell) : Type 0 where
  pub settled : s.phase ≡ Phase.settled
  pub unsealed : s.sealing ≡ false
  pub grounded : s.flight ≡ none

pressed :
    (s : Shell) (request : MintRequest)
    → IsSealable s
    → handle (seal_pressed request) s ≡ mint request s
unfolding handle seal is_settled_phase
pressed s request h = rw (h.settled, h.unsealed)

minted_first :
    (s : Shell) (request : MintRequest) (outcome : Settled PourRecord)
    → handle seal_over (handle (mint_answered outcome) (mint request s))
      ≡ finish outcome (mint request s)
unfolding handle mint seal_elapsed mint_settled on_flight with_flight advance await finish
minted_first s request (fulfilled pour) = refl
minted_first s request (rejected e) = refl

elapsed_first :
    (s : Shell) (request : MintRequest) (outcome : Settled PourRecord)
    → handle (mint_answered outcome) (handle seal_over (mint request s))
      ≡ finish outcome (mint request s)
unfolding handle mint seal_elapsed mint_settled on_flight with_flight advance await finish
elapsed_first s request (fulfilled pour) = refl
elapsed_first s request (rejected e) = refl

-- What a sealed pour leads to: a failed mint leaves everything as it was, the settled pour included,
-- and says why; one that succeeds shows the certificate of the record over an empty vessel.
abbrev pub sealed : Settled PourRecord → Shell → Shell
sealed (rejected e) s = record s { notice = some (mint_notice e) }
sealed (fulfilled pour) s = record s {
  current = some pour;
  view = View.certificate;
  phase = Phase.idle;
  rarity = Rarity.common;
  notice = none;
}

finish-mint :
    (s : Shell) (request : MintRequest) (outcome : Settled PourRecord)
    → IsSealable s
    → finish outcome (mint request s) ≡ sealed outcome s
unfolding finish mint
finish-mint s request (fulfilled pour) h = λ i. record s {
  current = some pour;
  view = View.certificate;
  phase = Phase.idle;
  rarity = Rarity.common;
  notice = none;
  sealing = sym h.unsealed i;
  flight = sym h.grounded i;
}
finish-mint s request (rejected e) h = λ i. record s {
  notice = some (mint_notice e);
  sealing = sym h.unsealed i;
  flight = sym h.grounded i;
}

-- Sealing a settled pour ends in the same state whether the answer or the end of the seal's pause comes
-- first: after a failure the shell is as it was, settled and ready to be sealed again, with the notice
-- of the failure; after a success it shows the certificate of the record.
pub seal_lem :
    (s : Shell) (request : MintRequest) (outcome : Settled PourRecord)
    → IsSealable s
    → (run (seal_pressed request ∷ mint_answered outcome ∷ seal_over ∷ []) s ≡ sealed outcome s)
      × (run (seal_pressed request ∷ seal_over ∷ mint_answered outcome ∷ []) s ≡ sealed outcome s)
seal_lem s request outcome h = (
  ap (λ t. handle seal_over (handle (mint_answered outcome) t)) (pressed s request h)
      ∙ minted_first s request outcome
      ∙ finish-mint s request outcome h,
  ap (λ t. handle (mint_answered outcome) (handle seal_over t)) (pressed s request h)
      ∙ elapsed_first s request outcome
      ∙ finish-mint s request outcome h,
)
