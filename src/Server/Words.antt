-- ===== src/Server/Words.antt =====
-- `toUint32` of api/sigil/sigil.go is ToUint32 of ECMAScript.
use native.Mathlib.Nat.{
  mul-add-mod_self_right, mod-eq_of_lt, mod-lt, div-add-mod', mul-le-mul_right, zero-mod, mul-pos,
}
use moltenpour.Prelude.{
  ℕ, zero, suc, ◌+◌, ◌-◌, ◌*◌, ◌/◌, ◌%◌, ◌^◌, ◌≤◌, ◌<◌, ◌≡◌, refl, ap, ap₂, sym, ◌∙◌, arith,
  if◌then◌else◌, true, ℤ, pos, negsuc, neg_ℕ, ◌+ℤ◌, sub_ℕ,
}
use moltenpour.Number.{
  Number, nan, pos_inf, neg_inf, fin, unit, of_ℕ, neg, double, to_uint32, ◌<ₙ◌, ◌+ₙ◌, ◌-ₙ◌,
}
use moltenpour.Number.Whole.{unit-pos, whole_div}
use moltenpour.Number.Exact.{of_ℕ-sub}
use moltenpour.Server.Floats.{is_nan, is_inf, trunc, math_mod, to_word}
use moltenpour.Server.Sigil as Go

scaled_mod : (q k u : ℕ) → 0 < k → 0 < u → q * u % (k * u) ≡ q % k * u
scaled_mod q k u hk hu =
    let whole : q / k * k + q % k ≡ q = div-add-mod' q k in
    let split : q * u ≡ q / k * (k * u) + q % k * u = omega (arith, ap (λ (t : ℕ). t * u) whole) in
    let below : suc (q % k) ≤ k = omega (arith, mod-lt q hk) in
    let less : q % k * u < k * u = omega (arith, hu, mul-le-mul_right u below) in
    ap (λ (t : ℕ). t % (k * u)) split
    ∙ mul-add-mod_self_right (q / k) (k * u) (q % k * u)
    ∙ mod-eq_of_lt less

+ℤ_comm : (a b : ℤ) → a +ℤ b ≡ b +ℤ a
unfolding ◌+ℤ◌
+ℤ_comm a b = ap₂ sub_ℕ (omega arith) (omega arith)

-- The word of a remainder at or above zero, and of one below.
to_word-rest : (r : ℕ) → to_word (fin (pos (r * unit))) ≡ r
unfolding to_word
to_word-rest r = whole_div r

below_zero : (m : ℕ) → 0 < m → fin (neg_ℕ m) <ₙ of_ℕ 0 ≡ true
unfolding of_ℕ ◌<ₙ◌
below_zero zero h = absurd (omega arith)
below_zero (suc m) h = ground arith

carried : (r k : ℕ) → r ≤ k → k < 2 ^ 53 → fin (neg_ℕ (r * unit)) +ₙ of_ℕ k ≡ of_ℕ (k - r)
carried r k le small = swapped ∙ of_ℕ-sub k r le small
  where
    swapped : fin (neg_ℕ (r * unit)) +ₙ of_ℕ k ≡ of_ℕ k -ₙ of_ℕ r
    swapped =
        unfold ◌-ₙ◌ ◌+ₙ◌ neg of_ℕ in
        ap (λ z. double z 1) (+ℤ_comm (neg_ℕ (r * unit)) (pos (k * unit)))

abbrev wrapped : Number → ℕ
wrapped m = to_word (if m <ₙ of_ℕ 0 then m +ₙ of_ℕ (2 ^ 32) else m)

wrapped-pos : (n : ℕ) → wrapped (fin (pos n)) ≡ to_word (fin (pos n))
unfolding of_ℕ ◌<ₙ◌
wrapped-pos n = ground arith

wrapped-neg : (r : ℕ) → r < 2 ^ 32 → wrapped (fin (neg_ℕ (r * unit))) ≡ (2 ^ 32 - r) % 2 ^ 32
wrapped-neg zero h =
    let nothing : 0 * unit ≡ 0 = omega arith in
    ap (λ (t : ℕ). wrapped (fin (neg_ℕ t))) nothing
    ∙ wrapped-pos 0
    ∙ ap (λ (t : ℕ). to_word (fin (pos t))) (sym nothing)
    ∙ to_word-rest 0
wrapped-neg (suc r) h =
    let word : to_word (of_ℕ (2 ^ 32 - suc r)) ≡ 2 ^ 32 - suc r =
      unfold of_ℕ in to_word-rest (2 ^ 32 - suc r) in
    rw
      (
        below_zero (suc r * unit) (mul-pos (omega arith) unit-pos),
        carried (suc r) (2 ^ 32) (omega arith) (omega arith),
      )
      (word ∙ sym (mod-eq_of_lt (omega arith)))

word_pos : 0 < 2 ^ 32
word_pos = omega arith

math_mod-pos :
    (n : ℕ) → math_mod (trunc (fin (pos n))) (2 ^ 32) ≡ fin (pos (n / unit % 2 ^ 32 * unit))
unfolding math_mod trunc
math_mod-pos n = ap (λ (t : ℕ). fin (pos t)) (scaled_mod (n / unit) (2 ^ 32) unit word_pos unit-pos)

math_mod-neg_from : (m : ℕ) → math_mod (fin (neg_ℕ m)) (2 ^ 32) ≡ fin (neg_ℕ (m % (2 ^ 32 * unit)))
unfolding math_mod
math_mod-neg_from zero = rw (zero-mod (2 ^ 32 * unit)) refl
math_mod-neg_from (suc m) = refl

math_mod-neg :
    (n : ℕ)
    → math_mod (trunc (fin (negsuc n))) (2 ^ 32) ≡ fin (neg_ℕ (suc n / unit % 2 ^ 32 * unit))
unfolding trunc
math_mod-neg n =
    math_mod-neg_from (suc n / unit * unit)
    ∙ ap (λ (t : ℕ). fin (neg_ℕ t)) (scaled_mod (suc n / unit) (2 ^ 32) unit word_pos unit-pos)

pub to_uint32_alike : (v : Number) → Go.to_uint32 v ≡ to_uint32 v
unfolding Go.to_uint32 to_uint32 is_nan is_inf
to_uint32_alike nan = refl
to_uint32_alike pos_inf = refl
to_uint32_alike neg_inf = refl
to_uint32_alike (fin (pos n)) =
    ap (λ m. wrapped m) (math_mod-pos n) ∙ wrapped-pos _ ∙ to_word-rest (n / unit % 2 ^ 32)
to_uint32_alike (fin (negsuc n)) =
    ap (λ m. wrapped m) (math_mod-neg n)
    ∙ wrapped-neg (suc n / unit % 2 ^ 32) (mod-lt (suc n / unit) word_pos)
