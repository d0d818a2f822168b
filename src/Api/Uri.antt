-- ===== src/Api/Uri.antt =====
-- `encodeURIComponent` on a text of Unicode scalar values: UTF-8, and an escape for every byte that
-- is no unreserved mark.
use moltenpour.Prelude.{
  ℕ, ◌+◌, ◌-◌, ◌/◌, ◌%◌, List, [], ◌∷◌, ◌++◌, Bool, ◌||◌, ◌&&◌, ◌==◌, leb, ltb, if◌then◌else◌,
}
use moltenpour.Text.{Text}

unfoldable pub between : ℕ → ℕ → ℕ → Bool
between low high c = leb low c && leb c high

unfoldable pub is_unreserved : ℕ → Bool
is_unreserved c =
    between b'A' b'Z' c
    || between b'a' b'z' c
    || between b'0' b'9' c
    || c == b'-'
    || c == b'_'
    || c == b'.'
    || c == b'!'
    || c == b'~'
    || between 39 42 c

unfoldable pub hex_digit : ℕ → ℕ
hex_digit d = if ltb d 10 then b'0' + d else b'A' + (d - 10)

unfoldable pub escape : ℕ → Text
escape byte = b'%' ∷ hex_digit (byte / 16 % 16) ∷ hex_digit (byte % 16) ∷ []

unfoldable pub utf8 : ℕ → List ℕ
utf8 c =
    if ltb c 128
    then c ∷ []
    else if ltb c 2048
    then (192 + c / 64) ∷ (128 + c % 64) ∷ []
    else if ltb c 65536
    then (224 + c / 4096) ∷ (128 + c / 64 % 64) ∷ (128 + c % 64) ∷ []
    else (240 + c / 262144) ∷ (128 + c / 4096 % 64) ∷ (128 + c / 64 % 64) ∷ (128 + c % 64) ∷ []

unfoldable pub escape_all : List ℕ → Text
escape_all [] = []
escape_all (b ∷ bs) = escape b ++ escape_all bs

unfoldable pub encode_one : ℕ → Text
encode_one c = if is_unreserved c then c ∷ [] else escape_all (utf8 c)

unfoldable pub encode_uri_component : Text → Text
encode_uri_component [] = []
encode_uri_component (c ∷ s) = encode_one c ++ encode_uri_component s
