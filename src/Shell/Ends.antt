-- ===== src/Shell/Ends.antt =====
-- The seal comes off: once its time is over and the mint is answered, in either order.
use moltenpour.Prelude.{Option, none, some, Bool, true, false, ◌≡◌, refl, ap, ◌∙◌}
use moltenpour.Record.{PourRecord}
use moltenpour.Shell.Defs.{
  Settled, fulfilled, rejected, Flight, Shell, finish, await, advance, on_flight, with_flight,
  settle_once, seal_elapsed, mint_settled, seal_over, mint_answered, handle,
}
use moltenpour.Shell.Invariant.{Reachable, Sealed, Reachable-IsSound}

ending : Unit {0}
unfolding handle mint_settled seal_elapsed on_flight with_flight advance await finish
ending = tt

-- With its time over and an answer, a mint ends.
await_over :
    (held : Bool) (outcome : Option (Settled PourRecord)) (o : Settled PourRecord) (f : Flight)
    (s : Shell)
    → held ≡ true
    → outcome ≡ some o
    → (await held outcome f s).sealing ≡ false
unfolding ending
await_over true (some (fulfilled pour)) o f s h e = refl
await_over true (some (rejected t)) o f s h e = refl
await_over true none o f s h e = cc
await_over false outcome o f s h e = cc

-- A mint that has ended stays ended.
finished_sealing :
    (x : Settled PourRecord) (s : Shell) (o : Settled PourRecord)
    → ((mint_settled o (finish x s)).sealing ≡ false)
      × ((seal_elapsed (finish x s)).sealing ≡ false)
unfolding ending
finished_sealing (fulfilled pour) s o = (refl, refl)
finished_sealing (rejected t) s o = (refl, refl)

answered_after :
    (outcome : Option (Settled PourRecord)) (f : Flight) (s : Shell) (o : Settled PourRecord)
    → f.held ≡ true
    → f.outcome ≡ outcome
    → (mint_settled o (await true outcome f s)).sealing ≡ false
unfolding await
answered_after (some x) f s o h e = (finished_sealing x s o).0
answered_after none f s o h e =
    unfold mint_settled on_flight with_flight advance in
    await_over f.held (settle_once f.outcome o) o (record f { outcome = settle_once f.outcome o })
      (record s { flight = some f }) h (ap (λ t. settle_once t o) e)

elapsed_after :
    (held : Bool) (x : Settled PourRecord) (f : Flight) (s : Shell) (o : Settled PourRecord)
    → f.held ≡ held
    → f.outcome ≡ some x
    → (seal_elapsed (await held (some x) f s)).sealing ≡ false
unfolding await
elapsed_after true x f s o h e = (finished_sealing x s o).1
elapsed_after false x f s o h e =
    unfold seal_elapsed on_flight with_flight advance in
    await_over true f.outcome x (record f { held = true }) (record s { flight = some f }) refl e

-- An answered flight has an answer.
settled_flight :
    (outcome : Option (Settled PourRecord)) (o : Settled PourRecord)
    → (x : Settled PourRecord) × (settle_once outcome o ≡ some x)
settled_flight none o = (o, refl)
settled_flight (some first) o = (first, refl)

sealing_off : (sealing : Bool) → Sealed sealing none → sealing ≡ false
sealing_off false h = refl
sealing_off true h = absurd h

abbrev answer : Settled PourRecord → Option Flight → Shell → Shell
answer o flight s = with_flight flight (λ f. record f { outcome = settle_once f.outcome o }) s

abbrev elapse : Option Flight → Shell → Shell
elapse flight s = with_flight flight (λ f. record f { held = true }) s

both_orders :
    (flight : Option Flight) (s : Shell) (o : Settled PourRecord)
    → s.flight ≡ flight
    → Sealed s.sealing flight
    → ((mint_settled o (seal_elapsed s)).sealing ≡ false)
      × ((seal_elapsed (mint_settled o s)).sealing ≡ false)
unfolding mint_settled seal_elapsed on_flight with_flight advance
both_orders none s o e h =
    let off = sealing_off s.sealing h in
    (
      ap (λ t. (mint_settled o (elapse t s)).sealing) e ∙ ap (λ t. (answer o t s).sealing) e ∙ off,
      ap (λ t. (seal_elapsed (answer o t s)).sealing) e ∙ ap (λ t. (elapse t s).sealing) e ∙ off,
    )
both_orders (some f) s o e h =
    let waiting : Flight = record f { held = true } in
    let answered : Flight = record f { outcome = settle_once f.outcome o } in
    let (x, first) = settled_flight f.outcome o in
    (
      ap (λ t. (mint_settled o (elapse t s)).sealing) e
          ∙ answered_after f.outcome waiting s o refl refl,
      ap (λ t. (seal_elapsed (answer o t s)).sealing) e
          ∙ ap (λ t. (seal_elapsed (await f.held t answered s)).sealing) first
          ∙ elapsed_after f.held x answered s o refl first,
    )

-- From every state that the shell can come to, the seal is off once its time is over and the
-- mint has been answered, with a record or with a failure, in either order.
pub seal_ends :
    (s : Shell) (o : Settled PourRecord)
    → Reachable s
    → ((handle (mint_answered o) (handle seal_over s)).sealing ≡ false)
      × ((handle seal_over (handle (mint_answered o) s)).sealing ≡ false)
unfolding handle
seal_ends s o r = both_orders s.flight s o refl (Reachable-IsSound s r).1
