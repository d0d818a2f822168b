-- ===== src/Api/Answers.antt =====
-- What the four calls answer with.
use moltenpour.Prelude.{
  ℕ, Option, none, some, true, ◌≡◌, refl, ap, ◌∙◌, sym, subst, Bool-cases, inl, inr,
}
use moltenpour.Text.{Text, codes}
use moltenpour.Record.{MintRequest}
use moltenpour.Api.Json.{Json, Items, arr, obj, nil, cons, null, bool, num, str}
use moltenpour.Api.Errors.{Response, is_ok}
use moltenpour.Api.Fetch.{
  Result, returns, throws, Attempt, answered, timed_out, unreachable, settle, ApiOptions, Env, Init,
  Request, api_fetch, request_for, or_else, default_retries,
}
use moltenpour.Api.Calls.{
  and_then, readable, json_body, checked, pour_record, mint_init, mint_options, mint_pour,
  empty_init, assert_each, listing, list_pours,
}
use moltenpour.Api.Accepts.{IsPourRecord, assert_pour_record_iff}
use moltenpour.Api.Retry.{Decides, Decides-exists, api_fetch_lem}

-- A chain that returns has steps that return.
module _ {ℓ κ} {A : Type ℓ} {B : Type κ} where
  and_then-returns :
      (r : Result A) (f : A → Result B) (b : B)
      → and_then r f ≡ returns b
      → (a : A) × ((r ≡ returns a) × (f a ≡ returns b))
  unfolding and_then
  and_then-returns (returns a) f b h = (a, (refl, h))
  and_then-returns (throws e) f b h = cc

returns-injective {ℓ} : {A : Type ℓ} (a b : A) → returns a ≡ returns b → a ≡ b
returns-injective a b h = cc

readable-returns :
    (status : ℕ) (o : Option Json) (x : Json) → readable status o ≡ returns x → o ≡ some x
unfolding readable
readable-returns status (some body) x h = ap some (returns-injective body x h)
readable-returns status none x h = cc

settle-returns :
    (a : Attempt) (res : Response)
    → settle a ≡ returns res
    → (a ≡ answered res) × (is_ok res ≡ true)
unfolding settle
settle-returns (answered r) res h = elim (Bool-cases (is_ok r)) [
  | inl good ↦
      let same : r ≡ res = returns-injective r res (rw good at h) in
      (ap answered same, ap is_ok (sym same) ∙ good)
  | inr bad ↦ cc
]
settle-returns timed_out res h = cc
settle-returns unreachable res h = cc

-- Where a call's result comes from: a good answer of the attempt that decides, read and checked.
pub record Answers {ℓ} {A : Type ℓ} (env : Env) (req : Request) (opts : ApiOptions)
    (check : Json → Result A) (a : A) : Type ℓ where
  pub attempt : ℕ
  pub decides : Decides (env.fetch req) (or_else opts.retries default_retries) attempt
  pub res : Response
  pub is_answer : env.fetch req attempt ≡ answered res
  pub is_good : is_ok res ≡ true
  pub body : Json
  pub is_body : res.body ≡ some body
  pub is_checked : check body ≡ returns a

checked-returns {ℓ} :
    {A : Type ℓ} (env : Env) (path : Text) (init : Init) (opts : ApiOptions)
    (check : Json → Result A) (a : A)
    → (checked (api_fetch env path init opts) check).result ≡ returns a
    → Answers env (request_for env path init opts) opts check a
unfolding checked json_body
checked-returns env path init opts check a h =
    let (k, d) =
      Decides-exists (env.fetch (request_for env path init opts))
        (or_else opts.retries default_retries) in
    let (res, (came, rest)) = and_then-returns _ _ a h in
    let (body, (read, good)) = and_then-returns _ _ a rest in
    let (settled, counts, waits) = api_fetch_lem env path init opts k d in
    let (is_answer, is_good) = settle-returns _ res (sym settled ∙ came) in
    record {
      attempt = k;
      decides = d;
      res = res;
      is_answer = is_answer;
      is_good = is_good;
      body = body;
      is_body = readable-returns res.status res.body body read;
      is_checked = good;
    }

pour_record-returns : (x y : Json) → pour_record x ≡ returns y → (x ≡ y) × (IsPourRecord y)
unfolding pour_record
pour_record-returns x y h =
    let (u, (asserted, same)) = and_then-returns _ _ y h in
    let e = returns-injective x y same in
    (e, subst IsPourRecord e ((assert_pour_record_iff x).0 asserted))

-- A mint that returns a value returns the body of the ledger's answer to the request, an answer with
-- a success status on the attempt that decides, and the body spells a pour record.
pub mint_pour-returns :
    (env : Env) (req : MintRequest) (opts : ApiOptions) (x : Json)
    → (mint_pour env req opts).result ≡ returns x
    → Answers env
        (request_for env (codes "/api/pours") (mint_init req) (mint_options opts))
        (mint_options opts)
        pour_record
        x
      × IsPourRecord x
unfolding mint_pour
mint_pour-returns env req opts x h =
    let a =
      checked-returns env (codes "/api/pours") (mint_init req) (mint_options opts) pour_record x
        h in
    (a, (pour_record-returns a.body x a.is_checked).1)

abbrev pub AllItems : (Json → Type 0) → Items → Type 0
AllItems P nil = Unit
AllItems P (cons v vs) = P v × AllItems P vs

assert_each→AllItems : (vs : Items) → assert_each vs ≡ returns tt → AllItems IsPourRecord vs
unfolding assert_each
assert_each→AllItems nil h = tt
assert_each→AllItems (cons v vs) h =
    let (u, (first, rest)) = and_then-returns _ _ tt h in
    ((assert_pour_record_iff v).0 first, assert_each→AllItems vs rest)

listing-returns :
    (x : Json) (list : Items)
    → listing x ≡ returns list
    → (x ≡ arr list) × AllItems IsPourRecord list
unfolding listing
listing-returns (arr vs) list h =
    let (u, (asserted, same)) = and_then-returns _ _ list h in
    let e = returns-injective vs list same in
    (ap arr e, subst (AllItems IsPourRecord) e (assert_each→AllItems vs asserted))
listing-returns null list h = cc
listing-returns (bool b) list h = cc
listing-returns (num n) list h = cc
listing-returns (str s) list h = cc
listing-returns (obj x) list h = cc

-- A listing that is returned is the array of a good answer, and every item of it spells a record.
pub list_pours-returns :
    (env : Env) (opts : ApiOptions) (list : Items)
    → (list_pours env opts).result ≡ returns list
    → (a : Answers env (request_for env (codes "/api/pours") empty_init opts) opts listing list)
      × ((a.body ≡ arr list) × AllItems IsPourRecord list)
unfolding list_pours
list_pours-returns env opts list h =
    let a = checked-returns env (codes "/api/pours") empty_init opts listing list h in
    (a, listing-returns a.body list a.is_checked)
