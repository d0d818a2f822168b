-- ===== src/Rig/Settled.antt =====
-- Once a pour has settled, its telemetry no longer changes.
use moltenpour.Prelude.{
  suc, ◌≤◌, ◌≡◌, refl, arith, ap, ◌∙◌, sym, ◌⊎◌, inl, inr, Bool, true, false, Bool-cases, List, [],
  ◌∷◌, All,
}
use moltenpour.Number.{Number, of_ℕ, ◌<=ₙ◌}
use moltenpour.Rig.Defs.{Blob, Rig, RigInput, telemetry_of}
use moltenpour.Rig.Step.{
  Frame, Tally, moved, sampled, bounced, counted, below_floor, is_gone, freed, settle_blob,
  step_blob, step_blobs, frame_of, eased, swept, shut, step_rig,
}

-- A slot that the loop passes over, or whose blob has landed.
abbrev pub IsQuiet : Blob → Type 0
IsQuiet b = ((b.rad <=ₙ of_ℕ 0) ≡ true) ⊎ (b.landed ≡ true)

freed-landed : (f : Frame) (b : Blob) → (freed f b).landed ≡ b.landed
unfolding freed
freed-landed f b = elim (Bool-cases (is_gone f b)) [ inl gone ↦ rw gone | inr stays ↦ rw stays ]

settle_blob-landed :
    (f : Frame) (b : Blob) (t : Tally) → b.landed ≡ true → (settle_blob f b t).0.landed ≡ true
unfolding settle_blob
settle_blob-landed f b t h = elim (Bool-cases (below_floor f b)) [
  | inl down ↦ rw down (freed-landed f (bounced f b) ∙ (unfold bounced in refl))
  | inr up ↦ rw up (freed-landed f b ∙ h)
]

-- A landed blob is counted no second time, so settling leaves the tally as it is.
settle_blob-tally : (f : Frame) (b : Blob) (t : Tally) → b.landed ≡ true → (settle_blob f b t).1 ≡ t
unfolding settle_blob counted
settle_blob-tally f b t h = elim (Bool-cases (below_floor f b)) [
  | inl down ↦ rw (down, h)
  | inr up ↦ rw up
]

-- The counts that telemetry reads.
abbrev pub SameMeasures : Tally → Tally → Type 0
SameMeasures t u = (t.landings ≡ u.landings) × (t.peak ≡ u.peak)

step_blob-IsQuiet :
    (f : Frame) (b : Blob) (t : Tally)
    → IsQuiet b
    → IsQuiet (step_blob f b t).0 × SameMeasures (step_blob f b t).1 t
unfolding step_blob
step_blob-IsQuiet f b t q = elim (Bool-cases (b.rad <=ₙ of_ℕ 0)) [
  | inl free ↦ rw free (q, (refl, refl))
  | inr live ↦ rw live (at_rest live q)
]
  where
    at_rest :
        (b.rad <=ₙ of_ℕ 0) ≡ false
        → IsQuiet b
        → IsQuiet
            (settle_blob f (moved f b) (sampled f (moved f b) (record t { alive = suc t.alive }))).0
          × SameMeasures
              (settle_blob f
                (moved f b)
                (sampled f (moved f b) (record t { alive = suc t.alive }))).1
              t
    at_rest live (inl free) = absurd (clash live free)
      where
        clash : {c : Bool} → c ≡ false → c ≡ true → ⊥
        clash u v = cc
    at_rest live (inr landed) =
        let still : (moved f b).landed ≡ true = unfold moved in landed in
        let same : sampled f (moved f b) (record t { alive = suc t.alive })
            ≡ record t { alive = suc t.alive } =
          unfold sampled in rw still in
        let tally =
          settle_blob-tally f (moved f b) (sampled f (moved f b) (record t { alive = suc t.alive }))
            still
          ∙ same in
        (
          inr (settle_blob-landed f (moved f b) _ still),
          (ap (λ u. u.landings) tally, ap (λ u. u.peak) tally),
        )

counted-airborne : (landed : Bool) (t : Tally) → (counted landed t).airborne ≡ t.airborne
unfolding counted
counted-airborne true t = refl
counted-airborne false t = refl

settle_blob-airborne :
    (f : Frame) (b : Blob) (t : Tally) → (settle_blob f b t).1.airborne ≡ t.airborne
unfolding settle_blob
settle_blob-airborne f b t = elim (Bool-cases (below_floor f b)) [
  | inl down ↦ rw down (counted-airborne b.landed t)
  | inr up ↦ rw up
]

-- A round that finds no blob in the air leaves its slot quiet.
step_blob-airborne :
    (f : Frame) (b : Blob) (t : Tally)
    → (((step_blob f b t).1.airborne ≡ t.airborne) × IsQuiet (step_blob f b t).0)
      ⊎ ((step_blob f b t).1.airborne ≡ suc t.airborne)
unfolding step_blob
step_blob-airborne f b t = elim (Bool-cases (b.rad <=ₙ of_ℕ 0)) [
  | inl free ↦ rw free (inl (refl, inl free))
  | inr live ↦ rw live (in_motion (Bool-cases (moved f b).landed))
]
  where
    in_motion :
        ((moved f b).landed ≡ true) ⊎ ((moved f b).landed ≡ false)
        → let r =
            settle_blob f (moved f b) (sampled f (moved f b) (record t { alive = suc t.alive })) in
          ((r.1.airborne ≡ t.airborne) × IsQuiet r.0) ⊎ (r.1.airborne ≡ suc t.airborne)
    in_motion (inl landed) = inl (
      settle_blob-airborne f (moved f b) _ ∙ (unfold sampled in rw landed),
      inr (settle_blob-landed f (moved f b) _ landed),
    )
    in_motion (inr flying) =
        inr (settle_blob-airborne f (moved f b) _ ∙ (unfold sampled in rw flying))

step_blobs-airborne :
    (f : Frame) (bs : List Blob) (t : Tally) → t.airborne ≤ (step_blobs f bs t).1.airborne
unfolding step_blobs
step_blobs-airborne f [] t = omega arith
step_blobs-airborne f (b ∷ bs) t =
    let rest = step_blobs-airborne f bs (step_blob f b t).1 in
    elim (step_blob-airborne f b t) [
      | inl (same, quiet) ↦ omega (arith, rest, same)
      | inr more ↦ omega (arith, rest, more)
    ]

-- A sweep that finds none leaves them all quiet.
pub step_blobs-IsQuiet :
    (f : Frame) (bs : List Blob) (t : Tally)
    → (step_blobs f bs t).1.airborne ≡ t.airborne
    → All IsQuiet (step_blobs f bs t).0
unfolding step_blobs
step_blobs-IsQuiet f [] t e = tt
step_blobs-IsQuiet f (b ∷ bs) t e =
    let rest = step_blobs-airborne f bs (step_blob f b t).1 in
    elim (step_blob-airborne f b t) [
      | inl (same, quiet) ↦ (quiet, step_blobs-IsQuiet f bs (step_blob f b t).1 (e ∙ sym same))
      | inr more ↦ absurd (omega (arith, rest, more, e))
    ]

step_blobs-still :
    (f : Frame) (bs : List Blob) (t : Tally)
    → All IsQuiet bs
    → All IsQuiet (step_blobs f bs t).0 × SameMeasures (step_blobs f bs t).1 t
unfolding step_blobs
step_blobs-still f [] t q = (tt, (refl, refl))
step_blobs-still f (b ∷ bs) t (q, qs) =
    let (one, (landings, peak)) = step_blob-IsQuiet f b t q in
    let (others, (landings_after, peak_after)) = step_blobs-still f bs (step_blob f b t).1 qs in
    ((one, others), (landings_after ∙ landings, peak_after ∙ peak))

-- A frame: what the stage is, how long it took, and what was asked of the rig.
pub record Tick : Type 0 where
  pub input : RigInput
  pub dt_ms : Number
  pub width : Number
  pub height : Number

-- The stream is shut in every frame.
abbrev pub AreShut : List Tick → Type 0
AreShut ks = All (λ k. k.input.pouring ≡ false) ks

abbrev pub AreQuiet : Rig → Type 0
AreQuiet rig = All IsQuiet rig.blobs

module _ (pow : Number → Number → Number) where
  abbrev pub tick : Tick → Rig → Rig
  tick k rig = step_rig pow rig k.input k.dt_ms k.width k.height

  -- Frames with the stream shut, one after the other.
  abbrev pub ticks : List Tick → Rig → Rig
  ticks [] rig = rig
  ticks (k ∷ ks) rig = ticks ks (tick k rig)

  shut_frame :
      (k : Tick) (rig : Rig)
      → k.input.pouring ≡ false
      → (frame_of pow rig k.input k.dt_ms k.width k.height).pouring ≡ false
  unfolding frame_of
  shut_frame k rig h = rw h

  pub tick-still :
      (k : Tick) (rig : Rig)
      → k.input.pouring ≡ false
      → AreQuiet rig
      → AreQuiet (tick k rig) × (telemetry_of (tick k rig) ≡ telemetry_of rig)
  unfolding step_rig
  tick-still k rig h q = rw (shut_frame k rig h) (still _)
    where
      still :
          (f : Frame)
          → AreQuiet (swept f (shut (eased f k.input rig)))
            × (telemetry_of (swept f (shut (eased f k.input rig))) ≡ telemetry_of rig)
      still f =
          unfold swept shut eased telemetry_of in
          let (quiet, (landings, peak)) =
            step_blobs-still f rig.blobs
              (record {
                alive = 0;
                airborne = 0;
                landings = rig.droplets_landed;
                peak = rig.peak_velocity;
              })
              q in
          (
            quiet,
            λ i. record (telemetry_of rig) {
              droplets_landed = of_ℕ (landings i);
              peak_velocity = peak i;
            },
          )

  pub ticks-still :
      (ks : List Tick) (rig : Rig)
      → AreShut ks
      → AreQuiet rig
      → telemetry_of (ticks ks rig) ≡ telemetry_of rig
  ticks-still [] rig h q = refl
  ticks-still (k ∷ ks) rig (h, hs) q =
      let (quiet, same) = tick-still k rig h q in ticks-still ks (tick k rig) hs quiet ∙ same
