-- ===== src/Api/Pauses.antt =====
-- How many requests and how much waiting a run of `apiFetch` makes.
use native.Mathlib.Nat.{pow-suc}
use moltenpour.Prelude.{
  ℕ, zero, suc, ◌+◌, ◌-◌, ◌*◌, ◌^◌, ◌≡◌, refl, arith, ap, List, [], ◌∷◌, ◌++◌, lt→ltb,
}
use moltenpour.Api.Fetch.{Effect, sleep, call, pause}

-- The calls from one attempt on, with n more after it, and the pauses in front of them.
abbrev pub plan : ℕ → ℕ → ℕ → List Effect
plan backoff_ms a zero = pause backoff_ms a ++ call ∷ []
plan backoff_ms a (suc n) = (pause backoff_ms a ++ call ∷ []) ++ plan backoff_ms (a + 1) n

abbrev pub calls : List Effect → ℕ
calls [] = 0
calls (sleep t ∷ es) = calls es
calls (call ∷ es) = suc (calls es)

abbrev pub slept : List Effect → ℕ
slept [] = 0
slept (sleep t ∷ es) = t + slept es
slept (call ∷ es) = slept es

calls-append : (xs ys : List Effect) → calls (xs ++ ys) ≡ calls xs + calls ys
calls-append [] ys = omega arith
calls-append (sleep t ∷ xs) ys = calls-append xs ys
calls-append (call ∷ xs) ys = omega (arith, calls-append xs ys)

slept-append : (xs ys : List Effect) → slept (xs ++ ys) ≡ slept xs + slept ys
slept-append [] ys = omega arith
slept-append (sleep t ∷ xs) ys = omega (arith, slept-append xs ys)
slept-append (call ∷ xs) ys = slept-append xs ys

calls-pause : (b a : ℕ) → calls (pause b a) ≡ 0
unfolding pause
calls-pause b zero = refl
calls-pause b (suc a) = rw (lt→ltb 0 (suc a) (omega arith))

slept-pause : (b a : ℕ) → slept (pause b (suc a)) ≡ b * 2 ^ a
unfolding pause
slept-pause b a =
    let same : suc a - 1 ≡ a = omega arith in
    rw (lt→ltb 0 (suc a) (omega arith), same) (omega arith)

calls-round : (b a : ℕ) → calls (pause b a ++ call ∷ []) ≡ 1
calls-round b a = omega (arith, calls-append (pause b a) (call ∷ []), calls-pause b a)

slept-round : (b a : ℕ) → slept (pause b (suc a) ++ call ∷ []) ≡ b * 2 ^ a
slept-round b a = omega (arith, slept-append (pause b (suc a)) (call ∷ []), slept-pause b a)

pub calls-plan : (b a n : ℕ) → calls (plan b a n) ≡ n + 1
calls-plan b a zero = omega (arith, calls-round b a)
calls-plan b a (suc n) = omega (
  arith,
  calls-append (pause b a ++ call ∷ []) (plan b (a + 1) n),
  calls-round b a,
  calls-plan b (a + 1) n,
)

power : (b a n : ℕ) → b * 2 ^ (a + suc n) ≡ 2 * (b * 2 ^ (a + n))
power b a n =
    let same : a + suc n ≡ suc (a + n) = omega arith in
    rw same (omega (arith, ap (λ (t : ℕ). b * t) (pow-suc 2 (a + n))))

-- The pauses double, so those after attempt a + 1 add up to one doubling less.
slept-plan : (b a n : ℕ) → slept (plan b (suc a) n) + b * 2 ^ a ≡ b * 2 ^ (a + suc n)
slept-plan b a zero =
    let same : a + 0 ≡ a = omega arith in
    omega (arith, slept-round b a, power b a 0, ap (λ (t : ℕ). b * 2 ^ t) same)
slept-plan b a (suc n) =
    let next : suc a + 1 ≡ suc (suc a) = omega arith in
    let same : suc a + suc n ≡ a + suc (suc n) = omega arith in
    let one : a + 1 ≡ suc a = omega arith in
    let zeroth : a + 0 ≡ a = omega arith in
    omega (
      arith,
      slept-append (pause b (suc a) ++ call ∷ []) (plan b (suc a + 1) n),
      slept-round b a,
      ap (λ t. slept (plan b t n)) next,
      slept-plan b (suc a) n,
      power b a 0,
      ap (λ (t : ℕ). b * 2 ^ t) zeroth,
      ap (λ (t : ℕ). b * 2 ^ t) one,
      ap (λ (t : ℕ). b * 2 ^ t) same,
    )

pub slept-plan_first : (b k : ℕ) → slept (plan b 0 k) + b ≡ b * 2 ^ k
unfolding pause
slept-plan_first b zero = omega arith
slept-plan_first b (suc k) =
    let same : 0 + suc k ≡ suc k = omega arith in
    omega (arith, slept-plan b 0 k, ap (λ (t : ℕ). b * 2 ^ t) same)
