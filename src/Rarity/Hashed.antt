-- ===== src/Rarity/Hashed.antt =====
-- The hash and the score read the same whole numbers.
use moltenpour.Prelude.{ℕ, ◌+◌, ◌*◌, ◌/◌, ◌^◌, ◌<◌, ◌≡◌, arith, ap, ◌∙◌, sym, get_or}
use native.Mathlib.Nat.{div-le_of_le-mul, mod-eq_of_lt}
use moltenpour.Number.{Number, of_ℕ, floor, round, to_uint32, unit, ◌*ₙ◌}
use moltenpour.Number.Whole.{whole_div}
use moltenpour.Number.UpTo.{
  UpTo, WholeUpTo, nat, WholeUpTo-nat, floor-WholeUpTo, round-WholeUpTo, *-UpTo, of_ℕ-UpTo,
}
use moltenpour.Telemetry.Tiers.{tier_of}
use moltenpour.Telemetry.Ceilings.{ceilings_at}
use moltenpour.Telemetry.Bounds.{IsSmall}
use moltenpour.Sigil.{BurnSeed, seed_parts}
use moltenpour.Rarity.Defs.{score_parts}
use moltenpour.Rarity.Refinement.{measures, parts_of, as_numbers, score_parts_lem}

-- `>>> 0` takes the whole part of a number below 2 ^ 32.
uint32_floor : {k : ℕ} {x : Number} → k < 2 ^ 32 → UpTo k x → to_uint32 x ≡ nat (floor x)
unfolding to_uint32 nat floor
uint32_floor {k} lt (UpTo.up_to n h) =
    rw (whole_div (n / unit))
      (mod-eq_of_lt (omega (arith, div-le_of_le-mul unit {m = n} {n = k} (omega arith))))

uint32_whole : {k : ℕ} {x : Number} → k < 2 ^ 32 → WholeUpTo k x → to_uint32 x ≡ nat x
unfolding to_uint32 nat of_ℕ
uint32_whole lt (WholeUpTo.whole w h) = rw (whole_div w) (mod-eq_of_lt (omega arith))

-- Two pours of one tier, as small as the clamp leaves them, with the same hashed parts have the same
-- score and the same four components: what cannot change the sigil's seed cannot change the rarity.
pub score_parts-eq_of_seed_parts :
    (s t : BurnSeed) (tier_index : Number)
    → IsSmall s.telemetry
    → IsSmall t.telemetry
    → seed_parts s ≡ seed_parts t
    → score_parts s.telemetry tier_index ≡ score_parts t.telemetry tier_index
unfolding seed_parts
score_parts-eq_of_seed_parts s t tier_index hs ht e =
    let part : (k : ℕ) → get_or (seed_parts s) k 0 ≡ get_or (seed_parts t) k 0 =
      λ k. ap (λ parts. get_or parts k 0) e in
    let tiny : (x : Number) → UpTo 2_000_000 x → to_uint32 x ≡ nat (floor x) =
      λ x h. uint32_floor (omega arith) h in
    let droplets : nat (floor s.telemetry.droplets_landed)
        ≡ nat (floor t.telemetry.droplets_landed) =
      sym (tiny _ hs.droplets) ∙ part 3 ∙ tiny _ ht.droplets in
    let velocity : nat (round s.telemetry.peak_velocity) ≡ nat (round t.telemetry.peak_velocity) =
      sym (uint32_whole (omega arith) (round-WholeUpTo hs.velocity))
      ∙ part 4
      ∙ uint32_whole (omega arith) (round-WholeUpTo ht.velocity) in
    let milli : (x : Number)
        → UpTo 2_000_000 x
        → WholeUpTo (2_000_000 * 1000 + 1) (round (x *ₙ of_ℕ 1000)) =
      λ x h. round-WholeUpTo (*-UpTo {j = 2_000_000} {k = 1000} (omega arith) h (of_ℕ-UpTo 1000)) in
    let tilt =
      sym (uint32_whole (omega arith) (milli _ hs.tilt))
      ∙ part 5
      ∙ uint32_whole (omega arith) (milli _ ht.tilt) in
    let hold : nat (floor s.telemetry.hold_ms) ≡ nat (floor t.telemetry.hold_ms) =
      sym (uint32_floor (omega arith) hs.hold) ∙ part 6 ∙ uint32_floor (omega arith) ht.hold in
    let held =
      (WholeUpTo-nat (floor-WholeUpTo hs.hold)).0
      ∙ ap of_ℕ hold
      ∙ sym (WholeUpTo-nat (floor-WholeUpTo ht.hold)).0 in
    let same : measures s.telemetry tier_index ≡ measures t.telemetry tier_index = λ i. record {
      droplets = droplets i;
      velocity = velocity i;
      hold = hold i;
      tilt = tilt i;
      max_droplets = nat (ceilings_at tier_index (held i)).max_droplets;
      max_speed = nat (round (ceilings_at tier_index (held i)).max_speed);
      max_tilt = nat (round ((ceilings_at tier_index (held i)).max_tilt *ₙ of_ℕ 1000));
    } in
    score_parts_lem s.telemetry tier_index hs
    ∙ ap (λ m. as_numbers (parts_of m (tier_of tier_index))) same
    ∙ sym (score_parts_lem t.telemetry tier_index ht)
