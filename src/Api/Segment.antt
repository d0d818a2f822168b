-- ===== src/Api/Segment.antt =====
-- An encoded id stays one segment of the path.
use moltenpour.Prelude.{
  ℕ, ◌<◌, List, [], ◌∷◌, ◌++◌, true, ◌≡◌, ◌≢◌, arith, All, Bool-cases, inl, inr,
}
use moltenpour.Text.{Text}
use moltenpour.Api.Uri.{
  between, is_unreserved, hex_digit, escape, utf8, escape_all, encode_one, encode_uri_component,
}

-- A code that neither ends a segment nor the path.
abbrev pub IsInside : ℕ → Type 0
IsInside c = (c ≢ b'/') × (c ≢ b'?') × (c ≢ b'#')

All-append {ℓ κ} :
    {A : Type ℓ} (P : A → Type κ) (xs ys : List A) → All P xs → All P ys → All P (xs ++ ys)
All-append P [] ys h k = k
All-append P (x ∷ xs) ys (h, hs) k = (h, All-append P xs ys hs k)

unreserved-IsInside : (c : ℕ) → is_unreserved c ≡ true → IsInside c
unfolding is_unreserved between
unreserved-IsInside c h = (λ e. cc, λ e. cc, λ e. cc)

hex_digit-IsInside : (d : ℕ) → d < 16 → IsInside (hex_digit d)
unfolding hex_digit
hex_digit-IsInside d h = (λ e. ground arith, λ e. ground arith, λ e. ground arith)

escape_all-IsInside : (bs : List ℕ) → All IsInside (escape_all bs)
unfolding escape_all escape
escape_all-IsInside [] = tt
escape_all-IsInside (b ∷ bs) = (
  (λ e. omega (arith, e), λ e. omega (arith, e), λ e. omega (arith, e)),
  (
    hex_digit-IsInside _ (omega arith),
    (hex_digit-IsInside _ (omega arith), escape_all-IsInside bs),
  ),
)

encode_one-IsInside : (c : ℕ) → All IsInside (encode_one c)
unfolding encode_one
encode_one-IsInside c = elim (Bool-cases (is_unreserved c)) [
  | inl plain ↦ rw plain (unreserved-IsInside c plain, tt)
  | inr other ↦ rw other (escape_all-IsInside (utf8 c))
]

-- No code of an encoded id is a slash, a question mark or a hash, whatever the id: the path that
-- `getPour` asks for names one pour and nothing below it.
pub encode_uri_component-IsInside : (id : Text) → All IsInside (encode_uri_component id)
unfolding encode_uri_component
encode_uri_component-IsInside [] = tt
encode_uri_component-IsInside (c ∷ id) =
    All-append IsInside (encode_one c) (encode_uri_component id) (encode_one-IsInside c)
      (encode_uri_component-IsInside id)
