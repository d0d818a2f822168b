-- ===== src/Shell/Defs.antt =====
-- The state of `App` and what each callback and each answer does to it. React's setters are writes
-- to one record; what an event handler awaits is a value of the state until its answer comes.
use moltenpour.Prelude.{
  List, [], ◌++◌, length, Option, none, some, Bool, true, false, not, ◌||◌, if◌then◌else◌,
}
use moltenpour.Number.{Number, of_ℕ, ◌-ₙ◌, min}
use moltenpour.Text.{Text, codes}
use moltenpour.Rarity.{Rarity}
use moltenpour.Tiers.{tiers}
use moltenpour.Record.{PourRecord, MintRequest, ServerConfig}
use moltenpour.Api.{ApiError, ApiErrorCode}

pub data View : Type 0 where
  ceremony collection certificate : View

-- `Phase` of app/ceremony/PourScreen.tsx.
pub data Phase : Type 0 where
  idle pouring settling settled : Phase

-- What a catch clause catches: an `ApiError` or anything else.
pub data Thrown : Type 0 where
  api_failure : ApiError → Thrown
  other_failure : Thrown

-- How an awaited call ends.
pub data Settled {ℓ} (A : Type ℓ) : Type ℓ where
  fulfilled : A → Settled A
  rejected : Thrown → Settled A

-- A mint under way: whether the seal's time is over, and the answer once it is there.
pub record Flight : Type 0 where
  pub request : MintRequest
  pub held : Bool
  pub outcome : Option (Settled PourRecord)

pub record Shell : Type 0 where
  pub view : View
  pub pours : List PourRecord
  pub current : Option PourRecord
  pub notice : Option Text
  pub sealing : Bool
  pub tier_index : Number
  pub max_tier_index : Number
  pub phase : Phase
  pub rarity : Rarity
  pub flight : Option Flight

unfoldable pub initial : Shell
initial = record {
  view = View.ceremony;
  pours = [];
  current = none;
  notice = none;
  sealing = false;
  tier_index = of_ℕ 3;
  max_tier_index = of_ℕ (length tiers) -ₙ of_ℕ 1;
  phase = Phase.idle;
  rarity = Rarity.common;
  flight = none;
}

unfoldable pub refusal : ApiError → Text
refusal e = elim e.code [
  | ApiErrorCode.conflict ↦
      codes "The ledger already holds a different record for this pour. " ++ e.message
  | _ ↦ codes "The record could not be sealed. " ++ e.message
]

unfoldable pub mint_notice : Thrown → Text
mint_notice other_failure = codes "The record could not be sealed."
mint_notice (api_failure e) =
    if e.retryable
    then codes "The ledger could not be reached. The pour has been kept; seal it again."
    else refusal e

unfoldable pub read_notice : Thrown → Text
read_notice other_failure =
    codes "The ledger could not be reached. The collection may be out of date."
read_notice (api_failure e) =
    if e.retryable
    then codes "The ledger could not be reached. The collection may be out of date."
    else codes "The ledger refused the listing. " ++ e.message

-- `refresh`, when its listing ends.
unfoldable pub refreshed : Settled (List PourRecord) → Shell → Shell
refreshed (fulfilled pours) s = record s { pours = pours }
refreshed (rejected e) s = record s { notice = some (read_notice e) }

-- The effect that asks for the configuration, when it ends.
unfoldable pub configured : Settled ServerConfig → Shell → Shell
configured (fulfilled config) s = record s {
  max_tier_index = config.max_tier_index;
  tier_index = min s.tier_index config.max_tier_index;
}
configured (rejected e) s = s

-- `mint`: the seal is put on, and the request and the timer start together.
unfoldable pub mint : MintRequest → Shell → Shell
mint request s = record s {
  sealing = true;
  notice = none;
  flight = some (record { request = request; held = false; outcome = none });
}

-- The end of the `try` block, and of the `catch` block.
unfoldable pub finish : Settled PourRecord → Shell → Shell
finish (fulfilled pour) s = record s {
  sealing = false;
  current = some pour;
  view = View.certificate;
  phase = Phase.idle;
  rarity = Rarity.common;
  flight = none;
}
finish (rejected e) s = record s { sealing = false; notice = some (mint_notice e); flight = none }

-- `Promise.all([mintPour(request), held])`, and `await held` after a failure: nothing goes on before
-- both the timer and the answer are there.
unfoldable pub await : Bool → Option (Settled PourRecord) → Flight → Shell → Shell
await true (some outcome) f s = finish outcome s
await true none f s = record s { flight = some f }
await false outcome f s = record s { flight = some f }

unfoldable pub advance : Flight → Shell → Shell
advance f s = await f.held f.outcome f s

unfoldable pub with_flight : Option Flight → (Flight → Flight) → Shell → Shell
with_flight none change s = s
with_flight (some f) change s = advance (change f) s

unfoldable pub on_flight : (Flight → Flight) → Shell → Shell
on_flight change s = with_flight s.flight change s

-- The timer of the seal runs out.
unfoldable pub seal_elapsed : Shell → Shell
seal_elapsed s = on_flight (λ f. record f { held = true }) s

-- A promise settles once: a later answer changes nothing.
abbrev pub settle_once :
    Option (Settled PourRecord) → Settled PourRecord → Option (Settled PourRecord)
settle_once none outcome = some outcome
settle_once (some first) outcome = some first

-- The mint is answered.
unfoldable pub mint_settled : Settled PourRecord → Shell → Shell
mint_settled outcome s = on_flight (λ f. record f { outcome = settle_once f.outcome outcome }) s

-- `phase === "settled"`.
unfoldable pub is_settled_phase : Phase → Bool
is_settled_phase Phase.settled = true
is_settled_phase phase = false

-- The seal button of app/ceremony/PourScreen.tsx: live only on a settled pour that is not being sealed.
unfoldable pub seal : MintRequest → Shell → Shell
seal request s = if not (is_settled_phase s.phase) || s.sealing then s else mint request s

unfoldable pub open_certificate : Option PourRecord → Shell → Shell
open_certificate none s = s
open_certificate (some pour) s = record s { view = View.certificate }

-- A tab; the one of the certificate is there only with a record to show.
unfoldable pub open_tab : View → Shell → Shell
open_tab View.ceremony s = record s { view = View.ceremony }
open_tab View.collection s = record s { view = View.collection }
open_tab View.certificate s = open_certificate s.current s

-- `onSelect` of the gallery.
unfoldable pub select : PourRecord → Shell → Shell
select pour s = record s { current = some pour; view = View.certificate }

-- What can happen to the shell.
pub data Event : Type 0 where
  seal_pressed : MintRequest → Event
  seal_over : Event
  mint_answered : Settled PourRecord → Event
  listing_answered : Settled (List PourRecord) → Event
  config_answered : Settled ServerConfig → Event
  on_phase : Phase → Event
  on_rarity : Rarity → Event
  on_notice : Option Text → Event
  on_tier_index : Number → Event
  tab_opened : View → Event
  pour_selected : PourRecord → Event

unfoldable pub handle : Event → Shell → Shell
handle (seal_pressed request) s = seal request s
handle seal_over s = seal_elapsed s
handle (mint_answered outcome) s = mint_settled outcome s
handle (listing_answered outcome) s = refreshed outcome s
handle (config_answered outcome) s = configured outcome s
handle (on_phase phase) s = record s { phase = phase }
handle (on_rarity rarity) s = record s { rarity = rarity }
handle (on_notice notice) s = record s { notice = notice }
handle (on_tier_index index) s = record s { tier_index = index }
handle (tab_opened view) s = open_tab view s
handle (pour_selected pour) s = select pour s
