-- ===== src/Sigil/Stream.antt =====
-- What the digest tells apart.
use moltenpour.Prelude.{ℕ, ◌<◌, ◌≡◌, ◌≢◌, refl, arith, ap, ap₂, ◌∙◌, sym, List, [], ◌∷◌, ◌++◌, All}
use moltenpour.Text.{Text}
use moltenpour.Sigil.Uint32.{u32, low_byte}
use moltenpour.Sigil.Hash.{fnv_byte, fnv_offset}
use moltenpour.Sigil.Geometry.{SigilGeometry}
use moltenpour.Sigil.Digest.{feed_codes, feed, feed_all, drawn_texts, geometry_digest}

-- FNV-1a over a list of bytes.
abbrev pub fnv : List ℕ → ℕ → ℕ
fnv [] h = h
fnv (b ∷ bs) h = fnv bs (fnv_byte h b)

-- The bytes of the texts, each with its separator.
abbrev pub stream : List Text → List ℕ
stream [] = []
stream (s ∷ ss) = s ++ 0x1f ∷ stream ss

-- A byte that is no separator.
abbrev pub IsPlain : ℕ → Type 0
IsPlain c = (c < 256) × (c ≢ 0x1f)

feed_codes-fnv :
    (s : Text) (bs : List ℕ) (h : ℕ) → All IsPlain s → fnv bs (feed_codes s h) ≡ fnv (s ++ bs) h
unfolding feed_codes
feed_codes-fnv [] bs h p = refl
feed_codes-fnv (c ∷ s) bs h (plain, rest) =
    let byte : low_byte c ≡ c = omega (arith, plain.0) in
    rw byte (feed_codes-fnv s bs (fnv_byte h c) rest)

feed_all-fnv : (ss : List Text) (h : ℕ) → All (All IsPlain) ss → feed_all ss h ≡ fnv (stream ss) h
unfolding feed_all feed
feed_all-fnv [] h p = refl
feed_all-fnv (s ∷ ss) h (plain, rest) =
    feed_all-fnv ss (fnv_byte (feed_codes s h) 0x1f) rest
    ∙ feed_codes-fnv s (0x1f ∷ stream ss) h plain

same_head : (a b : ℕ) (s t : List ℕ) → (a ∷ s) ≡ (b ∷ t) → a ≡ b
same_head a b s t e = cc

same_tail : (a b : ℕ) (s t : List ℕ) → (a ∷ s) ≡ (b ∷ t) → s ≡ t
same_tail a b s t e = cc

-- The first separator ends the first text.
split_unique :
    (s t : Text) (xs ys : List ℕ)
    → All IsPlain s
    → All IsPlain t
    → s ++ 0x1f ∷ xs ≡ t ++ 0x1f ∷ ys
    → (s ≡ t) × (xs ≡ ys)
split_unique [] [] xs ys p q e = (refl, same_tail _ _ _ _ e)
split_unique [] (b ∷ t) xs ys p (plain, q) e = absurd (plain.1 (sym (same_head _ _ _ _ e)))
split_unique (a ∷ s) [] xs ys (plain, p) q e = absurd (plain.1 (same_head _ _ _ _ e))
split_unique (a ∷ s) (b ∷ t) xs ys (u, p) (v, q) e =
    let (same, rest) = split_unique s t xs ys p q (same_tail _ _ _ _ e) in
    (ap₂ (λ c w. c ∷ w) (same_head _ _ _ _ e) same, rest)

no_end : (t : Text) (ys : List ℕ) → [] ≢ t ++ 0x1f ∷ ys
no_end [] ys e = cc
no_end (c ∷ t) ys e = cc

stream-injective :
    (ss ts : List Text)
    → All (All IsPlain) ss
    → All (All IsPlain) ts
    → stream ss ≡ stream ts
    → ss ≡ ts
stream-injective [] [] p q e = refl
stream-injective [] (t ∷ ts) p q e = absurd (no_end t (stream ts) e)
stream-injective (s ∷ ss) [] p q e = absurd (no_end s (stream ss) (sym e))
stream-injective (s ∷ ss) (t ∷ ts) (p, ps) (q, qs) e =
    let (same, rest) = split_unique s t (stream ss) (stream ts) p q e in
    ap₂ (λ u us. u ∷ us) same (stream-injective ss ts ps qs rest)

-- The digest is FNV-1a over one stream of bytes, the same for two drawings only if all their texts
-- are: texts of bytes other than the separator cannot run into each other.
pub geometry_digest_lem :
    (g h : SigilGeometry)
    → All (All IsPlain) (drawn_texts g)
    → All (All IsPlain) (drawn_texts h)
    → (geometry_digest g ≡ u32 (fnv (stream (drawn_texts g)) fnv_offset))
      × (stream (drawn_texts g) ≡ stream (drawn_texts h) → drawn_texts g ≡ drawn_texts h)
unfolding geometry_digest
geometry_digest_lem g h p q = (
  ap u32 (feed_all-fnv (drawn_texts g) fnv_offset p),
  stream-injective (drawn_texts g) (drawn_texts h) p q,
)
