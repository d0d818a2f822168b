-- ===== src/Server/Rounds.antt =====
-- `jsRound` of api/sigil/sigil.go against Math.round: half is added in floating point first, which
-- moves one double past a whole number that Math.round leaves it below.
use native.Mathlib.Nat.{
  div-one, div-eq_of_lt-le, mul-div-mul_right, div-mul-le_self, lt-div-mul-add, mul_assoc,
}
use moltenpour.Prelude.{
  ℕ, suc, ◌+◌, ◌-◌, ◌*◌, ◌/◌, ◌^◌, ◌≤◌, ◌<◌, ◌≡◌, ◌≢◌, ◌↔◌, refl, ap, sym, ◌∙◌, arith, pos,
}
use moltenpour.Number.{
  Number, fin, unit, of_ℕ, ratio, running, double, round_ratio, round_at, round, floor, ◌+ₙ◌,
}
use moltenpour.Number.Order.{◌≤ₙ◌, sum_pos}
use moltenpour.Number.Whole.{unit-pos}
use moltenpour.Number.Exact.{exponent, unit_split, pos_mag-fin, unit-overflow}
use moltenpour.Number.Quotient.{round_at_error, le-round_at}
use moltenpour.Number.Held.{IsDouble}
use moltenpour.Server.Halves.{below_half, unit_value, sum_gap}
use moltenpour.Server.Sigil as Go

-- What is added to a half comes to the same whole number, rounded or not.
module _ (c e' : ℕ) (c_small : c < 2 ^ 53) (bound : c * 2 ^ e' ≤ 2 ^ 51 * unit)
    (other : c * 2 ^ e' ≢ below_half) where
  abbrev total : ℕ
  total = c * 2 ^ e' + 2 ^ 1073

  abbrev whole : ℕ
  whole = total / unit

  whole_below : whole * unit ≤ total
  whole_below = div-mul-le_self total unit

  whole_above : total < suc whole * unit
  whole_above =
      let above : total < whole * unit + unit = lt-div-mul-add unit-pos in omega (arith, above)

  rounded-whole : round_ratio 53 0 total 1 / unit ≡ whole
  rounded-whole =
      let (small, gap) = sum_gap c e' whole c_small whole_above bound other whole_below in
      unfold round_ratio in
      let e = exponent total in
      let r = round_at e total 1 in
      let divides : whole * unit ≡ whole * 2 ^ (1074 - e) * 2 ^ e =
        ap (λ (t : ℕ). whole * t) (unit_split e (omega (arith, small)))
        ∙ sym (mul_assoc whole (2 ^ (1074 - e)) (2 ^ e)) in
      let lower =
        le-round_at e (whole * 2 ^ (1074 - e)) total 1 (omega arith)
          (omega (arith, divides, whole_below)) in
      let upper = (round_at_error e total 1 (omega arith)).0 in
      rw (div-one total)
        (div-eq_of_lt-le unit (omega (arith, divides, lower)) (omega (arith, upper, gap)))

  rounded-small : round_ratio 53 0 total 1 < 2 ^ 53 * unit
  rounded-small =
      let (small, gap) = sum_gap c e' whole c_small whole_above bound other whole_below in
      unfold round_ratio in
      let upper = (round_at_error (exponent total) total 1 (omega arith)).0 in
      rw (div-one total) (omega (arith, upper, gap, whole_below, bound, unit_value))

  half_sum : fin (pos (c * 2 ^ e')) +ₙ ratio 1 2 ≡ fin (pos (round_ratio 53 0 total 1))
  half_sum =
      unfold ◌+ₙ◌ double in
      rw (half_is, sum_pos (c * 2 ^ e') (2 ^ 1073))
        (pos_mag-fin _ (omega (arith, rounded-small, unit-overflow)))
    where
      half_is : ratio 1 2 ≡ fin (pos (2 ^ 1073))
      half_is = unfold running in refl

  js_round-held : Go.js_round (fin (pos (c * 2 ^ e'))) ≡ round (fin (pos (c * 2 ^ e')))
  js_round-held =
      unfold Go.js_round in
      rw half_sum (
        unfold floor round in ap (λ (t : ℕ). fin (pos (t * unit))) (rounded-whole ∙ sym nearest_is))
    where
      nearest_is : (2 * (c * 2 ^ e') + unit) / (2 * unit) ≡ whole
      nearest_is =
          let doubled : 2 * (c * 2 ^ e') + unit ≡ total * 2 = omega (arith, unit_value) in
          let twice : 2 * unit ≡ unit * 2 = omega arith in
          rw (doubled, twice, mul-div-mul_right {m = 2} total unit (omega arith))

js_round-below_half : Go.js_round (fin (pos below_half)) ≡ of_ℕ 1
unfolding Go.js_round running
js_round-below_half = refl

round-below_half : round (fin (pos below_half)) ≡ of_ℕ 0
unfolding running
round-below_half = refl

one-ne-zero : of_ℕ 1 ≢ of_ℕ 0
unfolding running
one-ne-zero e = cc

-- jsRound rounds a double from zero to 2 ^ 51 as Math.round does exactly when it is not the double next
-- below a half, 0.49999999999999994.
pub js_round_iff :
    (v : Number)
    → IsDouble v
    → v ≤ₙ of_ℕ (2 ^ 51)
    → (Go.js_round v ≡ round v) ↔ (v ≢ fin (pos below_half))
js_round_iff v (IsDouble.held c e h) le =
    let bound : c * 2 ^ e ≤ 2 ^ 51 * unit = at_most (c * 2 ^ e) le in
    (
      λ same at. one-ne-zero (
          sym js_round-below_half
          ∙ ap (λ x. Go.js_round x) (sym at)
          ∙ same
          ∙ ap (λ x. round x) at
          ∙ round-below_half),
      λ other. js_round-held c e h bound (λ at. other (ap (λ (t : ℕ). fin (pos t)) at)),
    )
  where
    at_most : (n : ℕ) → fin (pos n) ≤ₙ of_ℕ (2 ^ 51) → n ≤ 2 ^ 51 * unit
    at_most n le = unfold of_ℕ in omega (arith, le)
