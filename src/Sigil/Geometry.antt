-- ===== src/Sigil/Geometry.antt =====
-- `generateSigil` of app/sigil/sigil.ts. `Math.cos` and `Math.sin` are parameters: ECMAScript leaves
-- their last digits to the engine.
use moltenpour.Prelude.{ℕ, zero, suc, ◌+◌, ◌%◌, ◌==◌, if◌then◌else◌, List, [], ◌∷◌, ◌++◌, get_or}
use moltenpour.Number.{Number, nan, of_ℕ, ratio, ◌+ₙ◌, ◌-ₙ◌, ◌*ₙ◌, ◌/ₙ◌, min}
use moltenpour.Text.{Text, codes, show, to_fixed}
use moltenpour.Sigil.Rng.{draw, rng}

abbrev pub cx : Number
cx = of_ℕ 200

abbrev pub cy : Number
cy = of_ℕ 200

abbrev pub base : Number
base = of_ℕ 74

abbrev pub viewbox : ℕ
viewbox = 400

abbrev pub clip_radius : Number
clip_radius = of_ℕ 194

-- `Math.PI`.
abbrev pub pi : Number
pi = ratio 884279719003555 281474976710656

-- `(i / n) * Math.PI * 2`.
unfoldable pub angle : ℕ → ℕ → Number
angle i n = of_ℕ i /ₙ of_ℕ n *ₙ pi *ₙ of_ℕ 2

pub record Tendril : Type 0 where
  pub x1 : Text
  pub y1 : Text
  pub x2 : Text
  pub y2 : Text
  pub stroke_opacity : Text
  pub stroke_width : Text

pub record Satellite : Type 0 where
  pub cx : Text
  pub cy : Text
  pub r : Text
  pub fill_opacity : Text

pub record SigilGeometry : Type 0 where
  pub seed : ℕ
  pub view_box : Text
  pub gradient_id : Text
  pub pool : Text
  pub tendrils : List Tendril
  pub satellites : List Satellite

abbrev pub Point : Type 0
Point = Number × Number

-- `pts[i]`, for an index of the array.
unfoldable pub point_at : List Point → ℕ → Point
point_at pts i = get_or pts i (nan, nan)

unfoldable pub midpoint : Point → Point → Point
midpoint p q = ((p.0 +ₙ q.0) /ₙ of_ℕ 2, (p.1 +ₙ q.1) /ₙ of_ℕ 2)

-- `${p[0].toFixed(1)} ${p[1].toFixed(1)}`.
unfoldable pub coordinates : Point → Text
coordinates p = to_fixed 1 p.0 ++ codes " " ++ to_fixed 1 p.1

-- One round of the loop that writes the path.
unfoldable pub segment : List Point → ℕ → Text
segment pts i =
    let p = point_at pts i in
    let q = point_at pts ((i + 1) % 12) in
    let n = point_at pts ((i + 1) % 12) in
    let nn = point_at pts ((i + 2) % 12) in
    (if i == 0 then codes "M " ++ coordinates (midpoint p q) else [])
    ++ codes " Q "
    ++ coordinates q
    ++ codes " "
    ++ coordinates (midpoint n nn)

unfoldable pub segments : ℕ → ℕ → List Point → Text
segments zero i pts = []
segments (suc left) i pts = segment pts i ++ segments left (i + 1) pts

-- The distance of a tendril's end from the center, and of a satellite's, for a draw.
unfoldable pub tendril_root : Number
tendril_root = base *ₙ ratio 94 100

unfoldable pub tendril_reach : Number → Number
tendril_reach r = min clip_radius (tendril_root +ₙ of_ℕ 32 +ₙ r *ₙ of_ℕ 100)

unfoldable pub satellite_reach : Number → Number
satellite_reach r = base +ₙ of_ℕ 42 +ₙ r *ₙ of_ℕ 74

-- A coordinate: the center and a direction times a distance.
unfoldable pub coordinate : Number → Number → Number → Number
coordinate center direction distance = center +ₙ direction *ₙ distance

module _ (cos sin : Number → Number) where
  -- The first loop of `poolPath`, from lobe i on.
  unfoldable pub lobes : ℕ → ℕ → ℕ → List Point × ℕ
  lobes zero i s = ([], s)
  lobes (suc left) i s =
      let a = angle i 12 in
      let (r, s1) = draw s in
      let rad = base *ₙ (ratio 74 100 +ₙ r *ₙ ratio 44 100) in
      let (rest, s2) = lobes left (i + 1) s1 in
      ((coordinate cx (cos a) rad, coordinate cy (sin a) rad) ∷ rest, s2)

  unfoldable pub pool_path : ℕ → Text × ℕ
  pool_path s = let (pts, s1) = lobes 12 0 s in (segments 12 0 pts ++ codes " Z", s1)

  unfoldable pub tendrils_from : ℕ → ℕ → ℕ → List Tendril × ℕ
  tendrils_from zero i s = ([], s)
  tendrils_from (suc left) i s =
      let a = angle i 9 +ₙ ratio 18 100 in
      let r0 = tendril_root in
      let (d1, s1) = draw s in
      let r1 = tendril_reach d1 in
      let (d2, s2) = draw s1 in
      let (d3, s3) = draw s2 in
      let (rest, s4) = tendrils_from left (i + 1) s3 in
      (
        record {
          x1 = to_fixed 1 (coordinate cx (cos a) r0);
          y1 = to_fixed 1 (coordinate cy (sin a) r0);
          x2 = to_fixed 1 (coordinate cx (cos a) r1);
          y2 = to_fixed 1 (coordinate cy (sin a) r1);
          stroke_opacity = to_fixed 2 (ratio 5 10 +ₙ d2 *ₙ ratio 4 10);
          stroke_width = to_fixed 2 (ratio 7 10 +ₙ d3 *ₙ ratio 21 10);
        }
            ∷ rest,
        s4,
      )

  unfoldable pub satellites_from : ℕ → ℕ → ℕ → List Satellite × ℕ
  satellites_from zero i s = ([], s)
  satellites_from (suc left) i s =
      let (d1, s1) = draw s in
      let a = angle i 26 +ₙ (d1 -ₙ ratio 5 10) *ₙ ratio 8 100 in
      let (d2, s2) = draw s1 in
      let rad = satellite_reach d2 in
      let (d3, s3) = draw s2 in
      let (d4, s4) = draw s3 in
      let (rest, s5) = satellites_from left (i + 1) s4 in
      (
        record {
          cx = to_fixed 1 (coordinate cx (cos a) rad);
          cy = to_fixed 1 (coordinate cy (sin a) rad);
          r = to_fixed 2 (ratio 19 10 +ₙ d3 *ₙ ratio 46 10);
          fill_opacity = to_fixed 2 (ratio 55 100 +ₙ d4 *ₙ ratio 4 10);
        }
            ∷ rest,
        s5,
      )

  -- `generateSigil`, with the state of the generator that it leaves behind.
  unfoldable pub generated : ℕ → SigilGeometry × ℕ
  generated seed =
      let (pool, s1) = pool_path (rng seed) in
      let (tendrils, s2) = tendrils_from 9 0 s1 in
      let (satellites, s3) = satellites_from 26 0 s2 in
      (
        record {
          seed = seed;
          view_box = codes "0 0 " ++ show viewbox ++ codes " " ++ show viewbox;
          gradient_id = codes "pool-" ++ show seed;
          pool = pool;
          tendrils = tendrils;
          satellites = satellites;
        },
        s3,
      )

  unfoldable pub generate_sigil : ℕ → SigilGeometry
  generate_sigil seed = (generated seed).0
