-- ===== src/Sigil/HashLaws.antt =====
-- Changing one byte of what is hashed changes the hash.
use moltenpour.Prelude.{
  subst, ℕ, zero, suc, ◌+◌, ◌*◌, ◌%◌, ◌^◌, ◌<◌, ◌≤◌, ◌≡◌, ◌≢◌, refl, arith, ap, sym, ◌∙◌, bit_xor,
  xor_cancel, xor_comm, xor-lt, List, [], ◌∷◌, ◌++◌,
}
use native.Mathlib.Decide.{ℕ_discrete}
use moltenpour.Sigil.Uint32.{u32, low_byte, ◌>>>◌}
use moltenpour.Sigil.Hash.{
  BurnSeed, fnv_byte, fnv_prime, fnv_offset, hash_bytes, hash_parts, seed_parts, hash_seed,
}

-- 0x359c449b is the inverse of the prime modulo 2 ^ 32.
unmix : (x : ℕ) → x < 2 ^ 32 → x * fnv_prime % 2 ^ 32 * 0x359c_449b % 2 ^ 32 ≡ x
unmix x h = omega arith

fnv_byte-eq :
    (h b : ℕ) → h < 2 ^ 32 → b < 2 ^ 32 → bit_xor (fnv_byte h b * 0x359c_449b % 2 ^ 32) b ≡ h
unfolding fnv_byte
fnv_byte-eq h b p q =
    let below = xor-lt 32 h b p q in
    let narrow : bit_xor h b % 2 ^ 32 ≡ bit_xor h b = omega arith in
    rw (narrow, unmix (bit_xor h b) below) (xor_cancel h b)

fnv_byte-lt : (h b : ℕ) → fnv_byte h b < 2 ^ 32
unfolding fnv_byte
fnv_byte-lt h b = omega arith

-- For a fixed byte the step loses nothing of the hash so far.
fnv_byte-injective :
    (h k b : ℕ) → h < 2 ^ 32 → k < 2 ^ 32 → b < 2 ^ 32 → fnv_byte h b ≡ fnv_byte k b → h ≡ k
fnv_byte-injective h k b p q r e =
    sym (fnv_byte-eq h b p r)
    ∙ ap (λ t. bit_xor (t * 0x359c_449b % 2 ^ 32) b) e
    ∙ fnv_byte-eq k b q r

-- For a fixed hash so far it tells all bytes apart.
fnv_byte-injective_right :
    (h a b : ℕ) → h < 2 ^ 32 → a < 2 ^ 32 → b < 2 ^ 32 → fnv_byte h a ≡ fnv_byte h b → a ≡ b
unfolding fnv_byte
fnv_byte-injective_right h a b p q r e =
    let mixed : bit_xor h a ≡ bit_xor h b = omega (
      arith,
      xor-lt 32 h a p q,
      xor-lt 32 h b p r,
      unmix (bit_xor h a) (xor-lt 32 h a p q),
      unmix (bit_xor h b) (xor-lt 32 h b p r),
    ) in
    sym (xor_cancel a h)
    ∙ ap (λ t. bit_xor t h) (xor_comm a h ∙ mixed ∙ xor_comm h b)
    ∙ xor_cancel b h

-- The byte of p at place b.
abbrev pub byte_of : ℕ → ℕ → ℕ
byte_of p b = low_byte (p >>> (b * 8))

byte_of-lt : (p b : ℕ) → byte_of p b < 2 ^ 32
byte_of-lt p b = omega arith

hash_bytes-injective :
    (left b p h k : ℕ)
    → h < 2 ^ 32
    → k < 2 ^ 32
    → hash_bytes left b p h ≡ hash_bytes left b p k
    → h ≡ k
unfolding hash_bytes
hash_bytes-injective zero b p h k lh lk e = e
hash_bytes-injective (suc left) b p h k lh lk e =
    fnv_byte-injective h k (byte_of p b) lh lk (byte_of-lt p b) (
      hash_bytes-injective left (b + 1) p (fnv_byte h (byte_of p b)) (fnv_byte k (byte_of p b))
        (fnv_byte-lt h _) (fnv_byte-lt k _) e)

hash_bytes-lt : (left b p h : ℕ) → h < 2 ^ 32 → hash_bytes left b p h < 2 ^ 32
unfolding hash_bytes
hash_bytes-lt zero b p h l = l
hash_bytes-lt (suc left) b p h l =
    hash_bytes-lt left (b + 1) p (fnv_byte h (byte_of p b)) (fnv_byte-lt h _)

-- Only the bytes from b on are read.
hash_bytes_congr :
    (left b p q h : ℕ)
    → ((j : ℕ) → b ≤ j → byte_of p j ≡ byte_of q j)
    → hash_bytes left b p h ≡ hash_bytes left b q h
unfolding hash_bytes
hash_bytes_congr zero b p q h same = refl
hash_bytes_congr (suc left) b p q h same =
    rw (same b (omega arith))
      (hash_bytes_congr left (b + 1) p q (fnv_byte h (byte_of q b)) (λ j l. same j (omega arith)))

-- p and q differ at place k and nowhere else.
pub record DifferOnlyAt (k p q : ℕ) : Type 0 where
  pub there : byte_of p k ≢ byte_of q k
  pub elsewhere : (j : ℕ) → j ≢ k → byte_of p j ≡ byte_of q j

hash_bytes-ne :
    (left b k p q h : ℕ)
    → b ≤ k
    → k < b + left
    → h < 2 ^ 32
    → DifferOnlyAt k p q
    → hash_bytes left b p h ≢ hash_bytes left b q h
unfolding hash_bytes
hash_bytes-ne zero b k p q h le lt l d = absurd (omega arith)
hash_bytes-ne (suc left) b k p q h le lt l d = elim (ℕ_discrete b k) [
  | yes at ↦ λ e. d.there (
      subst (λ t. byte_of p t ≡ byte_of q t) at
        (fnv_byte-injective_right h (byte_of p b) (byte_of q b) l (byte_of-lt p b) (byte_of-lt q b)
          (hash_bytes-injective left (b + 1) q (fnv_byte h (byte_of p b)) (fnv_byte h (byte_of q b))
            (fnv_byte-lt h _) (fnv_byte-lt h _)
            (sym (hash_bytes_congr left (b + 1) p q _ (λ j le'. d.elsewhere j (omega arith)))
              ∙ e))))
  | no off ↦ rw (d.elsewhere b off) (
      hash_bytes-ne left (b + 1) k p q (fnv_byte h (byte_of q b)) (omega arith) (omega arith)
        (fnv_byte-lt h _) d)
]

hash_parts-injective :
    (parts : List ℕ) (h k : ℕ)
    → h < 2 ^ 32
    → k < 2 ^ 32
    → hash_parts parts h ≡ hash_parts parts k
    → h ≡ k
unfolding hash_parts
hash_parts-injective [] h k lh lk e = e
hash_parts-injective (p ∷ parts) h k lh lk e = hash_bytes-injective 4 0 p h k lh lk (
    hash_parts-injective parts (hash_bytes 4 0 p h) (hash_bytes 4 0 p k) (hash_bytes-lt 4 0 p h lh)
      (hash_bytes-lt 4 0 p k lk) e)

pub hash_parts-lt : (parts : List ℕ) (h : ℕ) → h < 2 ^ 32 → hash_parts parts h < 2 ^ 32
unfolding hash_parts
hash_parts-lt [] h l = l
hash_parts-lt (p ∷ parts) h l = hash_parts-lt parts (hash_bytes 4 0 p h) (hash_bytes-lt 4 0 p h l)

hash_parts-ne :
    (before after : List ℕ) (k p q h : ℕ)
    → k < 4
    → h < 2 ^ 32
    → DifferOnlyAt k p q
    → hash_parts (before ++ p ∷ after) h ≢ hash_parts (before ++ q ∷ after) h
unfolding hash_parts
hash_parts-ne [] after k p q h lt l d = λ e.
    hash_bytes-ne 4 0 k p q h (omega arith) (omega arith) l d (
      hash_parts-injective after (hash_bytes 4 0 p h) (hash_bytes 4 0 q h) (hash_bytes-lt 4 0 p h l)
        (hash_bytes-lt 4 0 q h l) e)
hash_parts-ne (x ∷ before) after k p q h lt l d =
    hash_parts-ne before after k p q (hash_bytes 4 0 x h) lt (hash_bytes-lt 4 0 x h l) d

-- The hash is an unsigned 32-bit integer.
pub hash_seed-lt : (seed : BurnSeed) → hash_seed seed < 2 ^ 32
unfolding hash_seed
hash_seed-lt seed = omega arith

-- Two seeds of which one hashed part differs, and in one of its four bytes, have different hashes:
-- no such change to a pour goes unnoticed, wherever the byte stands.
pub hash_seed-ne :
    (s t : BurnSeed) (before after : List ℕ) (k p q : ℕ)
    → k < 4
    → DifferOnlyAt k p q
    → seed_parts s ≡ before ++ p ∷ after
    → seed_parts t ≡ before ++ q ∷ after
    → hash_seed s ≢ hash_seed t
unfolding hash_seed
hash_seed-ne s t before after k p q lt d es et = λ e.
    hash_parts-ne before after k p q fnv_offset lt (omega arith) d
      (narrow (before ++ p ∷ after) (before ++ q ∷ after) (rw (es, et) at e))
  where
    narrow :
        (xs ys : List ℕ)
        → u32 (hash_parts xs fnv_offset) ≡ u32 (hash_parts ys fnv_offset)
        → hash_parts xs fnv_offset ≡ hash_parts ys fnv_offset
    narrow xs ys e = omega (
      arith,
      hash_parts-lt xs fnv_offset (omega arith),
      hash_parts-lt ys fnv_offset (omega arith),
    )
