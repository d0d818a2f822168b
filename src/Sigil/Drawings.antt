-- ===== src/Sigil/Drawings.antt =====
-- The laws of the geometry on one seed, and of the digest on a small drawing.
use moltenpour.Prelude.{ℕ, ◌≡◌, ◌<◌, arith, [], All}
use moltenpour.Number.{Number, nan, pos_inf, neg_inf, fin, of_ℕ, is_finite}
use moltenpour.Number.UpTo.{of_ℕ-UpTo, UpTo-mono}
use moltenpour.Text.{codes}
use moltenpour.Sigil.Uint32.{u32}
use moltenpour.Sigil.Hash.{fnv_offset}
use moltenpour.Sigil.Geometry.{SigilGeometry, generate_sigil}
use moltenpour.Sigil.Digest.{geometry_digest, drawn_texts, tendril_texts, satellite_texts}
use moltenpour.Sigil.Reach.{UpTo-Within}
use moltenpour.Sigil.Inside.{IsBounded, TendrilVisible, SatelliteVisible, generate_sigil-visible}
use moltenpour.Sigil.Stream.{fnv, stream, IsPlain, geometry_digest_lem}

-- A cosine and a sine that point one way, and are no number where there is no angle.
abbrev cos : Number → Number
cos (fin z) = of_ℕ 1
cos a = nan

abbrev sin : Number → Number
sin (fin z) = of_ℕ 0
sin a = nan

cos-IsBounded : IsBounded cos
unfolding is_finite
cos-IsBounded (fin z) h = UpTo-Within (of_ℕ-UpTo 1)
cos-IsBounded nan h = cc
cos-IsBounded pos_inf h = cc
cos-IsBounded neg_inf h = cc

sin-IsBounded : IsBounded sin
unfolding is_finite
sin-IsBounded (fin z) h = UpTo-Within (UpTo-mono (omega arith) (of_ℕ-UpTo 0))
sin-IsBounded nan h = cc
sin-IsBounded pos_inf h = cc
sin-IsBounded neg_inf h = cc

generate_sigil-visible_example :
    All TendrilVisible (generate_sigil cos sin 7).tendrils
    × All SatelliteVisible (generate_sigil cos sin 7).satellites
generate_sigil-visible_example = generate_sigil-visible cos sin 7 cos-IsBounded sin-IsBounded

abbrev small : SigilGeometry
small = record {
  seed = 7;
  view_box = codes "400";
  gradient_id = codes "pool-7";
  pool = codes "M Z";
  tendrils = [];
  satellites = [];
}

plain : {c : ℕ} → 0x1f < c → c < 256 → IsPlain c
plain h l = (l, λ e. omega (arith, h, e))

small-IsPlain : All (All IsPlain) (drawn_texts small)
unfolding drawn_texts tendril_texts satellite_texts
small-IsPlain = (
  (
    plain (omega arith) (omega arith),
    (plain (omega arith) (omega arith), (plain (omega arith) (omega arith), tt)),
  ),
  (
    (
      plain (omega arith) (omega arith),
      (plain (omega arith) (omega arith), (plain (omega arith) (omega arith), tt)),
    ),
    tt,
  ),
)

geometry_digest_example :
    (geometry_digest small ≡ u32 (fnv (stream (drawn_texts small)) fnv_offset))
    × (stream (drawn_texts small) ≡ stream (drawn_texts small)
        → drawn_texts small ≡ drawn_texts small)
geometry_digest_example = geometry_digest_lem small small small-IsPlain small-IsPlain
