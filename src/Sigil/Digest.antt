-- ===== src/Sigil/Digest.antt =====
-- `sigilDigest` of app/sigil/sigil.ts.
use moltenpour.Prelude.{ℕ, List, [], ◌∷◌, ◌++◌}
use moltenpour.Number.{Number}
use moltenpour.Text.{Text}
use moltenpour.Sigil.Uint32.{u32, low_byte}
use moltenpour.Sigil.Hash.{fnv_offset, fnv_byte}
use moltenpour.Sigil.Geometry.{Tendril, Satellite, SigilGeometry, generate_sigil}

-- The loop of the closure `feed`.
unfoldable pub feed_codes : Text → ℕ → ℕ
feed_codes [] h = h
feed_codes (c ∷ s) h = feed_codes s (fnv_byte h (low_byte c))

-- The closure `feed`, its separator included.
unfoldable pub feed : Text → ℕ → ℕ
feed s h = fnv_byte (feed_codes s h) 0x1f

unfoldable pub feed_all : List Text → ℕ → ℕ
feed_all [] h = h
feed_all (s ∷ ss) h = feed_all ss (feed s h)

unfoldable pub tendril_texts : List Tendril → List Text
tendril_texts [] = []
tendril_texts (t ∷ ts) =
    t.x1 ∷ t.y1 ∷ t.x2 ∷ t.y2 ∷ t.stroke_opacity ∷ t.stroke_width ∷ tendril_texts ts

unfoldable pub satellite_texts : List Satellite → List Text
satellite_texts [] = []
satellite_texts (s ∷ ss) = s.cx ∷ s.cy ∷ s.r ∷ s.fill_opacity ∷ satellite_texts ss

-- What is fed, in order.
unfoldable pub drawn_texts : SigilGeometry → List Text
drawn_texts g = g.view_box ∷ g.pool ∷ tendril_texts g.tendrils ++ satellite_texts g.satellites

unfoldable pub geometry_digest : SigilGeometry → ℕ
geometry_digest g = u32 (feed_all (drawn_texts g) fnv_offset)

unfoldable pub sigil_digest : (cos sin : Number → Number) → ℕ → ℕ
sigil_digest cos sin seed = geometry_digest (generate_sigil cos sin seed)
