-- ===== src/Api/Retry.antt =====
-- When `apiFetch` asks again, how often, and how long it waits.
use native.Mathlib.Nat.{add-zero}
use moltenpour.Prelude.{
  ℕ, zero, suc, ◌+◌, ◌*◌, ◌^◌, ◌≤◌, ◌<◌, ◌≡◌, refl, arith, ap, ◌∙◌, sym, ◌⊎◌, inl, inr, Bool, true,
  false, not, Bool-cases, ltb, ltb→lt, [], ◌∷◌, ◌++◌, append-nil, subst, if◌then◌else◌,
}
use moltenpour.Text.{Text}
use moltenpour.Api.Errors.{ApiError, Response}
use moltenpour.Api.Pauses.{plan, calls, slept, calls-plan, slept-plan_first}
use moltenpour.Api.Fetch.{
  Result, returns, throws, Attempt, call, settle, Fetched, pause, prefixed, after, attempts_from,
  ApiOptions, Env, Init, api_fetch, request_for, or_else, default_retries, default_backoff_ms,
  undefined_error,
}

-- Whether an attempt ends the loop: a success, or an error that asking again cannot mend.
abbrev pub is_final : Result Response → Bool
is_final (returns res) = true
is_final (throws e) = not e.retryable

abbrev pub ends : Attempt → Bool
ends a = is_final (settle a)

-- The attempt that decides: the first that ends the loop, or the last that is allowed.
pub record Decides (fetch : ℕ → Attempt) (retries k : ℕ) : Type 0 where
  pub within : k ≤ retries
  pub before : (j : ℕ) → j < k → ends (fetch j) ≡ false
  pub here : (k ≡ retries) ⊎ (ends (fetch k) ≡ true)

choose :
    (e : ApiError) (next : ApiError → Fetched)
    → e.retryable ≡ false
    → after next (throws e) ≡ record { result = throws e; effects = [] }
unfolding after
choose e next h = ap (λ t. if t then next e else record { result = throws e; effects = [] }) h

continue :
    (e : ApiError) (next : ApiError → Fetched) → e.retryable ≡ true → after next (throws e) ≡ next e
unfolding after
continue e next h = ap (λ t. if t then next e else record { result = throws e; effects = [] }) h

-- A final result ends the loop, and so does the last round, whatever its result.
after_final :
    (next : ApiError → Fetched) (r : Result Response)
    → is_final r ≡ true
    → after next r ≡ record { result = r; effects = [] }
unfolding after
after_final next (returns res) h = refl
after_final next (throws e) h = choose e next (negated h)
  where
    negated : not e.retryable ≡ true → e.retryable ≡ false
    negated h = ground arith

after_last :
    (next : ApiError → Fetched) (r : Result Response)
    → ((e : ApiError) → next e ≡ record { result = throws e; effects = [] })
    → after next r ≡ record { result = r; effects = [] }
unfolding after
after_last next (returns res) h = refl
after_last next (throws e) h = elim (Bool-cases e.retryable) [
  | inl again ↦ continue e next again ∙ h e
  | inr over ↦ choose e next over
]

after_more :
    (next : ApiError → Fetched) (r : Result Response)
    → is_final r ≡ false
    → (e : ApiError) × (after next r ≡ next e)
unfolding after
after_more next (returns res) h = cc
after_more next (throws e) h = (e, continue e next (negated h))
  where
    negated : not e.retryable ≡ false → e.retryable ≡ true
    negated h = ground arith

module _ (fetch : ℕ → Attempt) (b : ℕ) where
  -- From attempt a on, with the deciding attempt n after it.
  attempts_from_lem :
      (n left a : ℕ) (last : ApiError)
      → n ≤ left
      → ((j : ℕ) → j < n → ends (fetch (a + j)) ≡ false)
      → (n ≡ left) ⊎ (ends (fetch (a + n)) ≡ true)
      → attempts_from fetch b (suc left) a last
        ≡ record { result = settle (fetch (a + n)); effects = plan b a n }
  unfolding attempts_from prefixed
  attempts_from_lem zero left a last le before here = rw (add-zero a) (
      ap (prefixed (pause b a ++ call ∷ [])) (stop left here) ∙ (λ i. record {
        result = settle (fetch a);
        effects = append-nil (pause b a ++ call ∷ []) i;
      }))
    where
      stop :
          (left : ℕ)
          → (zero ≡ left) ⊎ (ends (fetch (a + 0)) ≡ true)
          → after (attempts_from fetch b left (a + 1)) (settle (fetch a))
            ≡ record { result = settle (fetch a); effects = [] }
      stop zero h = after_last _ (settle (fetch a)) (λ e. refl)
      stop (suc left) (inl e) = absurd (omega arith)
      stop (suc left) (inr e) = after_final _ (settle (fetch a)) (rw (add-zero a) at e)
  attempts_from_lem (suc n) zero a last le before here = absurd (omega arith)
  attempts_from_lem (suc n) (suc left) a last le before here =
      let (e, step) =
        after_more (attempts_from fetch b (suc left) (a + 1)) (settle (fetch a))
          (rw (add-zero a) at (before 0 (omega arith))) in
      let shift : (j : ℕ) → a + suc j ≡ a + 1 + j = λ j. omega arith in
      let rest =
        attempts_from_lem n left (a + 1) e (omega arith)
          (λ j lt. subst (λ t. ends (fetch t) ≡ false) (shift j) (before (suc j) (omega arith)))
          (shifted here (shift n)) in
      ap (prefixed (pause b a ++ call ∷ [])) (step ∙ rest)
      ∙ (λ i. record { result = settle (fetch (sym (shift n) i)); effects = plan b a (suc n) })
    where
      shifted :
          (suc n ≡ suc left) ⊎ (ends (fetch (a + suc n)) ≡ true)
          → a + suc n ≡ a + 1 + n
          → (n ≡ left) ⊎ (ends (fetch (a + 1 + n)) ≡ true)
      shifted (inl e) s = inl (omega arith)
      shifted (inr e) s = inr (subst (λ t. ends (fetch t) ≡ true) s e)

-- With attempt k deciding, the call ends as that attempt does, after k + 1 requests and no more, and
-- after pauses that double from the backoff on: together the backoff times 2 ^ k - 1.
pub api_fetch_lem :
    (env : Env) (path : Text) (init : Init) (opts : ApiOptions) (k : ℕ)
    → Decides (env.fetch (request_for env path init opts)) (or_else opts.retries default_retries) k
    → let f = api_fetch env path init opts in
      let backoff = or_else opts.backoff_ms default_backoff_ms in
      (f.result ≡ settle (env.fetch (request_for env path init opts) k))
      × (calls f.effects ≡ k + 1)
      × (slept f.effects + backoff ≡ backoff * 2 ^ k)
unfolding api_fetch
api_fetch_lem env path init opts k d =
    let fetch = env.fetch (request_for env path init opts) in
    let b = or_else opts.backoff_ms default_backoff_ms in
    let zeroth : (j : ℕ) → 0 + j ≡ j = λ j. omega arith in
    let ran =
      attempts_from_lem fetch b k (or_else opts.retries default_retries) 0 undefined_error d.within
        (λ j lt. subst (λ t. ends (fetch t) ≡ false) (sym (zeroth j)) (d.before j lt))
        (subst (λ t. (k ≡ or_else opts.retries default_retries) ⊎ (ends (fetch t) ≡ true))
          (sym (zeroth k)) d.here) in
    (
      ap (λ f. f.result) ran ∙ ap (λ t. settle (fetch t)) (zeroth k),
      ap (λ f. calls f.effects) ran ∙ calls-plan b 0 k,
      ap (λ f. slept f.effects + b) ran ∙ slept-plan_first b k,
    )

decide_from :
    (fetch : ℕ → Attempt) (n a : ℕ)
    → (k : ℕ) × (k ≤ a + n)
      × (a ≤ k)
      × ((j : ℕ) → a ≤ j → j < k → ends (fetch j) ≡ false)
      × ((k ≡ a + n) ⊎ (ends (fetch k) ≡ true))
decide_from fetch zero a =
    (a, omega arith, omega arith, λ j l u. absurd (omega arith), inl (omega arith))
decide_from fetch (suc n) a = elim (Bool-cases (ends (fetch a))) [
  | inl done ↦ (a, omega arith, omega arith, λ j l u. absurd (omega arith), inr done)
  | inr again ↦
      let (k, le, ge, before, here) = decide_from fetch n (a + 1) in
      (k, omega arith, omega arith, earlier again k before, reached k here)
]
  where
    reached :
        (k : ℕ)
        → (k ≡ a + 1 + n) ⊎ (ends (fetch k) ≡ true)
        → (k ≡ a + suc n) ⊎ (ends (fetch k) ≡ true)
    reached k (inl e) = inl (omega arith)
    reached k (inr e) = inr e

    earlier :
        ends (fetch a) ≡ false
        → (k : ℕ) → ((j : ℕ) → a + 1 ≤ j → j < k → ends (fetch j) ≡ false)
        → (j : ℕ) → a ≤ j
        → j < k
        → ends (fetch j) ≡ false
    earlier again k before j l u = elim (Bool-cases (ltb a j)) [
      | inl high ↦ let above : a < j = ltb→lt a j high in before j (omega arith) u
      | inr low ↦ let same : a ≡ j = ground arith in subst (λ t. ends (fetch t) ≡ false) same again
    ]

-- Some attempt decides.
pub Decides-exists : (fetch : ℕ → Attempt) (retries : ℕ) → (k : ℕ) × Decides fetch retries k
Decides-exists fetch retries =
    let (k, le, ge, before, here) = decide_from fetch retries 0 in
    (
      k,
      record {
        within = omega arith;
        before = λ j lt. before j (omega arith) lt;
        here = subst (λ t. (k ≡ t) ⊎ (ends (fetch k) ≡ true)) (omega arith) here;
      },
    )
