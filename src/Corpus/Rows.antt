-- ===== src/Corpus/Rows.antt =====
-- What every row of the corpus says.
use native.Mathlib.Nat.{mul-le-mul_right}
use moltenpour.Prelude.{
  ℕ, zero, suc, ◌+◌, ◌*◌, ◌^◌, ◌%◌, ◌==◌, ◌<◌, ◌≤◌, ◌≡◌, refl, ap, ◌∙◌, arith, List, [], ◌∷◌,
  length, Bool, true, false, Bool-cases, inl, inr, lt→ltb, subst,
}
use moltenpour.Number.{Number, of_ℕ, unit, is_finite, min, max, ◌<ₙ◌}
use moltenpour.Number.Order.{IsNonneg}
use moltenpour.Number.UpTo.{
  UpTo, WholeUpTo, UpTo-mono, UpTo-of_WholeUpTo, of_ℕ-UpTo, *-UpTo, +-UpTo, floor-WholeUpTo,
  min-UpTo,
}
use moltenpour.Telemetry.{Telemetry, Field, clamp_telemetry, take, safe}
use moltenpour.Telemetry.Sim
use moltenpour.Number.Whole.{of_ℕ-IsNonnegFinite}
use moltenpour.Telemetry.Ceilings.{safe_self}
use moltenpour.Telemetry.Bounds.{ceilings_at-AreUpTo}
use moltenpour.Telemetry.Clamp.{clamp_telemetry-IsClamped, clamp_telemetry-fixed_iff}
use moltenpour.Rarity.Bands.{rank}
use moltenpour.Tiers.{reachable_rarity}
use moltenpour.Tiers.Reach.{classify-le-reachable}
use moltenpour.Sigil.Reach.{quotient-UpTo}
use moltenpour.Corpus.Defs.{
  next, Row, insert, sorted, wild_raw, drawn_raw, raw_of, wall_of, make_row, rows_from, rows,
}

UpTo-IsNonneg : {k : ℕ} {x : Number} → UpTo k x → IsNonneg x
UpTo-IsNonneg (UpTo.up_to n h) = IsNonneg.finite n

next-UpTo : (s : ℕ) → UpTo 1 (next s).0
unfolding next
next-UpTo s = quotient-UpTo _ (omega arith)

-- A row whose clamped claim is one that the server's clamp keeps, and whose rarity its tier can reach.
abbrev pub IsConsistent : Row → Type 0
IsConsistent r =
    (clamp_telemetry r.clamped r.tier_index r.wall_clock_ms
      ≡ record { telemetry = r.clamped; violations = [] })
    × (rank r.rarity ≤ rank (reachable_rarity r.tier_index))

-- The four fields, in the order of their names.
abbrev pub every_field : List Field
every_field = Field.droplets_landed ∷ Field.hold_ms ∷ Field.peak_velocity ∷ Field.tilt_energy ∷ []

-- A claim that a pour could make: at most 141 droplets, and a hold of at most 16001 milliseconds.
pub record IsDrawn (t : Telemetry) : Type 0 where
  pub droplets : WholeUpTo 141 t.droplets_landed
  pub peak : UpTo 2601 t.peak_velocity
  pub tilt : UpTo 6 t.tilt_energy
  pub hold : WholeUpTo 16_001 t.hold_ms

-- What a row claims: too much in every field, or what is drawn.
abbrev pub Claims : Bool → Row → Type 0
Claims true r = r.violations ≡ every_field
Claims false r = IsDrawn r.raw

abbrev pub IsTold : ℕ → Row → Type 0
IsTold i r = (r.tier_index ≡ of_ℕ (i % 6)) × Claims ((i % 7) == 0) r × IsConsistent r

-- Each of the rows from row i on.
abbrev pub AllFrom : (ℕ → Row → Type 0) → ℕ → List Row → Type 0
AllFrom P i [] = Unit
AllFrom P i (r ∷ rs) = P i r × AllFrom P (suc i) rs

make_row-IsConsistent :
    (cos sin : Number → Number) (i : ℕ) (raw : Telemetry) (wall : Number)
    → IsNonneg wall
    → IsConsistent (make_row cos sin i raw wall)
unfolding make_row
make_row-IsConsistent cos sin i raw wall w = (
  (clamp_telemetry-fixed_iff _ (of_ℕ (i % 6)) wall w).1
      (clamp_telemetry-IsClamped raw (of_ℕ (i % 6)) wall w),
  classify-le-reachable raw (of_ℕ (i % 6)) wall w,
)

-- 9e9 is above whatever is below it.
UpTo-huge :
    {k : ℕ} {x : Number} → k < 9_000_000_000 → UpTo k x → x <ₙ safe (of_ℕ 9_000_000_000) ≡ true
unfolding safe is_finite max ◌<ₙ◌ of_ℕ unit
UpTo-huge {k} small (UpTo.up_to n h) =
    lt→ltb (n + 0) (9_000_000_000 * 2 ^ 1074 + 0)
      (omega (arith, h, mul-le-mul_right (2 ^ 1074) small))

-- The overclaim is one in every field, under every tier and every wall clock of a row.
wild_violations :
    (tier_index wall : Number)
    → UpTo 20_000 wall
    → (clamp_telemetry wild_raw tier_index wall).violations
      ≡ Field.hold_ms ∷ Field.droplets_landed ∷ Field.peak_velocity ∷ Field.tilt_energy ∷ []
unfolding clamp_telemetry take wild_raw Sim.max_pour_ms
wild_violations tier_index wall h =
    let huge = of_ℕ 9_000_000_000 in
    let cap = min-UpTo h (of_ℕ-UpTo 15_000) in
    let hold : UpTo 15_000 (min (safe huge) (min wall (of_ℕ 15_000))) =
      min-UpTo {j = 9_000_000_000}
        (rw (safe_self (of_ℕ-IsNonnegFinite 9_000_000_000)) (of_ℕ-UpTo 9_000_000_000)) cap in
    let c = ceilings_at-AreUpTo tier_index hold in
    rw
      (
        UpTo-huge (omega arith) cap,
        UpTo-huge (omega arith) (UpTo-of_WholeUpTo c.droplets),
        UpTo-huge (omega arith) c.speed,
        UpTo-huge (omega arith) c.tilt,
      )
      refl

wall_of-UpTo : (d : Number) → UpTo 1 d → UpTo 20_000 (wall_of d)
unfolding wall_of
wall_of-UpTo d h =
    let whole =
      UpTo-of_WholeUpTo
        (floor-WholeUpTo (*-UpTo {j = 1} {k = 16000} (omega arith) h (of_ℕ-UpTo 16000))) in
    UpTo-mono (omega arith) (+-UpTo {j = 500} {k = 16001} (omega arith) (of_ℕ-UpTo 500) whole)

drawn_raw-IsDrawn : (s : ℕ) → IsDrawn (drawn_raw s).0
unfolding drawn_raw
drawn_raw-IsDrawn s = record {
  droplets = floor-WholeUpTo (*-UpTo {j = 1} {k = 140} (omega arith) (next-UpTo _) (of_ℕ-UpTo 140));
  peak = *-UpTo {j = 1} {k = 2600} (omega arith) (next-UpTo _) (of_ℕ-UpTo 2600);
  tilt = *-UpTo {j = 1} {k = 5} (omega arith) (next-UpTo _) (of_ℕ-UpTo 5);
  hold =
      floor-WholeUpTo (*-UpTo {j = 1} {k = 16_000} (omega arith) (next-UpTo _) (of_ℕ-UpTo 16_000));
}

row-Claims :
    (cos sin : Number → Number) (i s : ℕ) (d : Number)
    → UpTo 1 d
    → Claims ((i % 7) == 0) (make_row cos sin i (raw_of i s).0 (wall_of d))
unfolding make_row raw_of
row-Claims cos sin i s d h = elim (Bool-cases ((i % 7) == 0)) [
  | inl wild ↦ rw wild (
      ap sorted (wild_violations (of_ℕ (i % 6)) (wall_of d) (wall_of-UpTo d h))
      ∙ (unfold sorted insert in refl))
  | inr drawn ↦ rw drawn (drawn_raw-IsDrawn s)
]

make_row-tier :
    (cos sin : Number → Number) (i : ℕ) (raw : Telemetry) (wall : Number)
    → (make_row cos sin i raw wall).tier_index ≡ of_ℕ (i % 6)
unfolding make_row
make_row-tier cos sin i raw wall = refl

rows_from-IsTold :
    (cos sin : Number → Number) (left i s : ℕ)
    → (length (rows_from cos sin left i s) ≡ left) × AllFrom IsTold i (rows_from cos sin left i s)
unfolding rows_from
rows_from-IsTold cos sin zero i s = (refl, tt)
rows_from-IsTold cos sin (suc left) i s =
    let (raw, s1) = raw_of i s in
    let d = next-UpTo s1 in
    let (many, rest) = rows_from-IsTold cos sin left (i + 1) (next s1).1 in
    (
      ap suc many,
      (
        (
          make_row-tier cos sin i raw (wall_of (next s1).0),
          row-Claims cos sin i s (next s1).0 d,
          make_row-IsConsistent cos sin i raw (wall_of (next s1).0)
              (UpTo-IsNonneg (wall_of-UpTo (next s1).0 d)),
        ),
        subst (λ (j : ℕ). AllFrom IsTold j (rows_from cos sin left (i + 1) (next s1).1))
            (omega arith) rest,
      ),
    )

-- The corpus has 300 rows, whatever the engine's cosine and sine. Row i is of tier i % 6. Every seventh
-- row, from the first on, overclaims and is reported in all four fields; the others claim at most 141
-- droplets, a peak of at most 2601, a tilt of at most 6 and a hold of at most 16001 milliseconds. The clamped
-- telemetry of each row is one that a second clamp leaves alone without a violation, and its rarity is one
-- that the tier can reach.
pub rows-IsTold :
    (cos sin : Number → Number) → (length (rows cos sin) ≡ 300) × AllFrom IsTold 0 (rows cos sin)
unfolding rows
rows-IsTold cos sin = rows_from-IsTold cos sin 300 0 0x5eed_1234
