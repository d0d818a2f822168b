-- ===== src/Shell/Invariant.antt =====
-- What holds of the shell at every moment.
use moltenpour.Prelude.{
  Option, none, some, Bool, true, false, ◌≡◌, refl, subst, not, ◌||◌, Bool-cases, inl, inr,
}
use moltenpour.Record.{PourRecord, MintRequest}
use moltenpour.Shell.Defs.{
  View, Settled, fulfilled, rejected, Flight, Shell, initial, mint, finish, await, advance,
  on_flight, with_flight, is_settled_phase, open_certificate, seal_elapsed, mint_settled, seal,
  refreshed, configured, open_tab, select, Event, seal_pressed, seal_over, mint_answered,
  listing_answered, config_answered, on_phase, on_rarity, on_notice, on_tier_index, tab_opened,
  pour_selected, handle,
}

-- The certificate is shown only with a record to show.
abbrev pub Shows : View → Option PourRecord → Type 0
Shows View.certificate none = ⊥
Shows _ _ = Unit

-- The seal is on exactly while a mint is under way that still waits for its timer or its answer.
abbrev pub Waits : Bool → Option (Settled PourRecord) → Type 0
Waits true (some outcome) = ⊥
Waits _ _ = Unit

abbrev pub Sealed : Bool → Option Flight → Type 0
Sealed true (some f) = Waits f.held f.outcome
Sealed false none = Unit
Sealed _ _ = ⊥

abbrev pub IsSound : Shell → Type 0
IsSound s = Shows s.view s.current × Sealed s.sealing s.flight

-- The states that a shell can come to.
pub data Reachable : Shell → Type 0 where
  start : Reachable initial
  step : {s : Shell} (e : Event) → Reachable s → Reachable (handle e s)

Shows-some : (v : View) (pour : PourRecord) → Shows v (some pour)
Shows-some View.ceremony pour = tt
Shows-some View.collection pour = tt
Shows-some View.certificate pour = tt

seal-IsSound : (request : MintRequest) (s : Shell) → IsSound s → IsSound (seal request s)
unfolding seal mint
seal-IsSound request s (shows, seals) =
    elim (Bool-cases (not (is_settled_phase s.phase) || s.sealing)) [
      | inl shut ↦ rw shut (shows, seals)
      | inr live ↦ rw live (shows, tt)
    ]

finish-IsSound :
    (outcome : Settled PourRecord) (s : Shell) → Shows s.view s.current → IsSound (finish outcome s)
unfolding finish
finish-IsSound (fulfilled pour) s shows = (tt, tt)
finish-IsSound (rejected e) s shows = (shows, tt)

await-IsSound :
    (held : Bool) (outcome : Option (Settled PourRecord)) (f : Flight) (s : Shell)
    → f.held ≡ held
    → f.outcome ≡ outcome
    → s.sealing ≡ true
    → Shows s.view s.current
    → IsSound (await held outcome f s)
unfolding await
await-IsSound true (some outcome) f s h o on shows = finish-IsSound outcome s shows
await-IsSound true none f s h o on shows = (shows, rw (on, h, o) tt)
await-IsSound false none f s h o on shows = (shows, rw (on, h) tt)
await-IsSound false (some outcome) f s h o on shows = (shows, rw (on, h) tt)

sealing_on : (sealing : Bool) (f : Flight) → Sealed sealing (some f) → sealing ≡ true
sealing_on true f h = refl
sealing_on false f h = absurd h

with_flight-IsSound :
    (flight : Option Flight) (change : Flight → Flight) (s : Shell)
    → s.flight ≡ flight
    → IsSound s
    → IsSound (with_flight flight change s)
unfolding with_flight advance
with_flight-IsSound none change s e sound = sound
with_flight-IsSound (some f) change s e (shows, seals) =
    await-IsSound (change f).held (change f).outcome (change f) s refl refl
      (sealing_on s.sealing f (subst (λ t. Sealed s.sealing t) e seals)) shows

open_tab-IsSound : (view : View) (s : Shell) → IsSound s → IsSound (open_tab view s)
unfolding open_tab
open_tab-IsSound View.ceremony s (shows, seals) = (tt, seals)
open_tab-IsSound View.collection s (shows, seals) = (tt, seals)
open_tab-IsSound View.certificate s (shows, seals) = opened s.current refl
  where
    opened :
        (current : Option PourRecord) → s.current ≡ current → IsSound (open_certificate current s)
    opened none e = unfold open_certificate in (shows, seals)
    opened (some pour) e = unfold open_certificate in (rw e tt, seals)

handle-IsSound : (e : Event) (s : Shell) → IsSound s → IsSound (handle e s)
unfolding handle
handle-IsSound (seal_pressed request) s h = seal-IsSound request s h
handle-IsSound seal_over s h =
    unfold seal_elapsed on_flight in with_flight-IsSound s.flight _ s refl h
handle-IsSound (mint_answered outcome) s h =
    unfold mint_settled on_flight in with_flight-IsSound s.flight _ s refl h
handle-IsSound (listing_answered (fulfilled pours)) s h = unfold refreshed in h
handle-IsSound (listing_answered (rejected e)) s h = unfold refreshed in h
handle-IsSound (config_answered (fulfilled config)) s h = unfold configured in h
handle-IsSound (config_answered (rejected e)) s h = unfold configured in h
handle-IsSound (on_phase phase) s h = h
handle-IsSound (on_rarity rarity) s h = h
handle-IsSound (on_notice notice) s h = h
handle-IsSound (on_tier_index index) s h = h
handle-IsSound (tab_opened view) s h = open_tab-IsSound view s h
handle-IsSound (pour_selected pour) s h = unfold select in (tt, h.1)

-- In every state that the shell can come to, the certificate is shown only with a record to show, and
-- the seal is on exactly while a mint is under way that waits for its timer or for its answer: it is
-- never left on, and never off under a mint.
pub Reachable-IsSound : (s : Shell) → Reachable s → IsSound s
unfolding initial
Reachable-IsSound s Reachable.start = (tt, tt)
Reachable-IsSound s (Reachable.step e r) = handle-IsSound e _ (Reachable-IsSound _ r)
