-- ===== src/Telemetry/Tiers.antt =====
-- The tier that an arbitrary index is read as, and its flow.
use moltenpour.Prelude.{ℕ, zero, suc, ◌+◌, ◌*◌, ◌/◌, ◌≤◌, ◌<◌, ◌≡◌, refl, arith, ltb, ap, ◌∙◌, true}
use moltenpour.Prelude.{sym, lt→ltb, get_elem?, pos, negsuc, neg_ℕ, if◌then◌else◌}
use moltenpour.Number.{
  Number, nan, pos_inf, neg_inf, fin, unit, of_ℕ, running, is_finite, ◌<ₙ◌, ◌-ₙ◌, floor, element,
}
use moltenpour.Number.Whole.{lt-of_ℕ, element-of_ℕ, unit-pos, whole_div}
use moltenpour.Telemetry.Defs.{
  clamp_tier_index, tier_count, tier_bounds, flow_of, telemetry_ceilings, ceilings_for,
}

-- The index as a natural number: the whole part, held to 0 to 5; 0 for what is not finite.
abbrev pub tier_of : Number → ℕ
tier_of (fin (pos n)) = if ltb (n / unit) 6 then n / unit else 5
tier_of x = 0

tier_last : tier_count -ₙ of_ℕ 1 ≡ of_ℕ 5
unfolding tier_count tier_bounds running
tier_last = refl

tier_six : tier_count ≡ of_ℕ 6
unfolding tier_count tier_bounds
tier_six = refl

clamp_whole :
    (k : ℕ)
    → (if of_ℕ k <ₙ of_ℕ 0
        then of_ℕ 0
        else if of_ℕ k <ₙ tier_count
        then of_ℕ k
        else tier_count -ₙ of_ℕ 1)
      ≡ of_ℕ (if ltb k 6 then k else 5)
clamp_whole k = rw (tier_last, tier_six, lt-of_ℕ k 0, lt-of_ℕ k 6) (ground arith)

neg_lt : (k : ℕ) → fin (neg_ℕ ((k + 1) * unit)) <ₙ of_ℕ 0 ≡ true
unfolding of_ℕ ◌<ₙ◌
neg_lt k = go ((k + 1) * unit) (grind (arith, unit-pos))
  where
    go : (m : ℕ) → 0 < m → fin (neg_ℕ m) <ₙ fin (pos (0 * unit)) ≡ true
    go zero h = absurd (omega arith)
    go (suc m) h = ground arith

-- Any number is read as one of the six tiers, by its whole part.
pub clamp_tier_index_lem : (x : Number) → clamp_tier_index x ≡ of_ℕ (tier_of x)
clamp_tier_index_lem (fin (pos n)) =
    unfold clamp_tier_index is_finite floor of_ℕ in clamp_whole (n / unit)
clamp_tier_index_lem (fin (negsuc n)) =
    unfold clamp_tier_index is_finite floor in rw (neg_lt (n / unit))
clamp_tier_index_lem nan = unfold clamp_tier_index is_finite in refl
clamp_tier_index_lem pos_inf = unfold clamp_tier_index is_finite in refl
clamp_tier_index_lem neg_inf = unfold clamp_tier_index is_finite in refl

pub tier_of-lt : (x : Number) → tier_of x < 6
tier_of-lt (fin (pos n)) = ground arith
tier_of-lt (fin (negsuc n)) = omega arith
tier_of-lt nan = omega arith
tier_of-lt pos_inf = omega arith
tier_of-lt neg_inf = omega arith

-- The droplets per second of each tier.
abbrev pub flow_table : ℕ → ℕ
flow_table zero = 10
flow_table (suc zero) = 16
flow_table (suc (suc zero)) = 20
flow_table (suc (suc (suc zero))) = 24
flow_table (suc (suc (suc (suc zero)))) = 28
flow_table _ = 34

flow_get : (i : ℕ) → i < 6 → flow_of (get_elem? tier_bounds i) ≡ of_ℕ (flow_table i)
unfolding flow_of tier_bounds
flow_get zero h = refl
flow_get (suc zero) h = refl
flow_get (suc (suc zero)) h = refl
flow_get (suc (suc (suc zero))) h = refl
flow_get (suc (suc (suc (suc zero)))) h = refl
flow_get (suc (suc (suc (suc (suc zero))))) h = refl
flow_get (suc (suc (suc (suc (suc (suc i)))))) h = absurd (omega arith)

-- The table is never missed, whatever the index.
pub flow_lem :
    (x : Number)
    → flow_of (element tier_bounds (clamp_tier_index x)) ≡ of_ℕ (flow_table (tier_of x))
flow_lem x =
    rw (clamp_tier_index_lem x, element-of_ℕ tier_bounds) (flow_get (tier_of x) (tier_of-lt x))

pub flow_table-bounds : (i : ℕ) → (0 < flow_table i) × (flow_table i ≤ 34)
flow_table-bounds zero = omega arith
flow_table-bounds (suc zero) = omega arith
flow_table-bounds (suc (suc zero)) = omega arith
flow_table-bounds (suc (suc (suc zero))) = omega arith
flow_table-bounds (suc (suc (suc (suc zero)))) = omega arith
flow_table-bounds (suc (suc (suc (suc (suc i))))) = omega arith

-- An index that names a tier is left as it is, and is the one that the flow is read at.
pub clamp_tier_index-of_ℕ : (i : ℕ) → clamp_tier_index (of_ℕ i) ≡ of_ℕ (if ltb i 6 then i else 5)
clamp_tier_index-of_ℕ i = clamp_tier_index_lem (of_ℕ i) ∙ ap of_ℕ (go i)
  where
    go : (i : ℕ) → tier_of (of_ℕ i) ≡ (if ltb i 6 then i else 5)
    go i = unfold of_ℕ in rw (whole_div i)

pub tier_of-of_ℕ : (i : ℕ) → i < 6 → tier_of (of_ℕ i) ≡ i
unfolding of_ℕ
tier_of-of_ℕ i h = rw (whole_div i, lt→ltb i 6 h)

-- Two indices that are read as one tier.
pub clamp_tier_index_congr : (x : Number) → clamp_tier_index x ≡ clamp_tier_index (of_ℕ (tier_of x))
clamp_tier_index_congr x =
    let h = tier_of-lt x in
    clamp_tier_index_lem x
    ∙ sym (clamp_tier_index_lem (of_ℕ (tier_of x)) ∙ ap of_ℕ (tier_of-of_ℕ (tier_of x) h))

-- An index counts only by the tier that it is read as.
pub telemetry_ceilings_congr :
    (x hold_s : Number) → telemetry_ceilings x hold_s ≡ telemetry_ceilings (of_ℕ (tier_of x)) hold_s
unfolding telemetry_ceilings
telemetry_ceilings_congr x hold_s =
    ap (λ i. ceilings_for (flow_of (element tier_bounds i)) hold_s) (clamp_tier_index_congr x)
