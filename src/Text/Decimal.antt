-- ===== src/Text/Decimal.antt =====
-- Reading back what is printed.
use moltenpour.Prelude.{
  ℕ, zero, suc, ◌+◌, ◌-◌, ◌*◌, ◌/◌, ◌%◌, ◌<◌, ◌≡◌, refl, arith, ◌==◌, Bool-cases, inl, inr, false,
  ap, sym, ◌∙◌, ltb,
}
use moltenpour.Prelude.{if◌then◌else◌, append_assoc, [], ◌∷◌, ◌++◌}
use moltenpour.Text.Defs.{Text, show_from, show, fixed_digits, grouped_from, grouped}

-- The value of decimal digits after `acc`; a comma or a point is passed over.
abbrev pub read_from : ℕ → Text → ℕ
read_from acc [] = acc
read_from acc (c ∷ s) =
    read_from (if c == b',' then acc else if c == b'.' then acc else acc * 10 + (c - b'0')) s

abbrev pub read : Text → ℕ
read s = read_from 0 s

pub read_digit :
    (a k : ℕ) (s : Text) → k < 10 → read_from a ((b'0' + k) ∷ s) ≡ read_from (a * 10 + k) s
read_digit a k s h =
    let comma : ((b'0' + k) == b',') ≡ false = ground arith in
    let point : ((b'0' + k) == b'.') ≡ false = ground arith in
    let digit : a * 10 + (b'0' + k - b'0') ≡ a * 10 + k = omega arith in
    rw (comma, point) (ap (λ t. read_from t s) digit)

pub read_from-show_from :
    (fuel n : ℕ) (acc : Text) → n < fuel → read_from 0 (show_from fuel n acc) ≡ read_from n acc
unfolding show_from
read_from-show_from zero n acc h = absurd (omega arith)
read_from-show_from (suc fuel) n acc h = elim (Bool-cases (n / 10 == 0)) [
  | inl last ↦
      let single : n % 10 ≡ n = ground arith in
      rw (last, show_from)
        (read_digit 0 (n % 10) acc (omega arith) ∙ ap (λ t. read_from t acc) (omega arith))
  | inr more ↦
      rw (more, show_from)
        (read_from-show_from fuel (n / 10) ((b'0' + n % 10) ∷ acc) (ground arith)
          ∙ read_digit (n / 10) (n % 10) acc (omega arith)
          ∙ ap (λ t. read_from t acc) (omega arith))
]

show_from-append :
    (fuel n : ℕ) (acc rest : Text) → show_from fuel n (acc ++ rest) ≡ show_from fuel n acc ++ rest
unfolding show_from
show_from-append zero n acc rest = refl
show_from-append (suc fuel) n acc rest = elim (Bool-cases (n / 10 == 0)) [
  | inl last ↦ rw (last, show_from)
  | inr more ↦ rw (more, show_from) (show_from-append fuel (n / 10) ((b'0' + n % 10) ∷ acc) rest)
]

-- The digits of n read as n, whatever follows.
pub read-show : (n : ℕ) (rest : Text) → read (show n ++ rest) ≡ read_from n rest
unfolding show
read-show n rest =
    sym (ap read (show_from-append (suc n) n [] rest))
    ∙ read_from-show_from (suc n) n rest (omega arith)

pub read_from-fixed_digits_two :
    (a k : ℕ) → k < 100 → read_from a (b'.' ∷ fixed_digits 2 k) ≡ a * 100 + k
unfolding fixed_digits
read_from-fixed_digits_two a k h =
    read_digit a (k / 10 % 10) ((b'0' + k % 10) ∷ []) (omega arith)
    ∙ read_digit (a * 10 + k / 10 % 10) (k % 10) [] (omega arith)
    ∙ omega arith

read_from-fixed_digits_three :
    (a k : ℕ) (rest : Text)
    → k < 1000
    → read_from a (b',' ∷ fixed_digits 3 k ++ rest) ≡ read_from (a * 1000 + k) rest
unfolding fixed_digits
read_from-fixed_digits_three a k rest h =
    read_digit a (k / 10 / 10 % 10) ((b'0' + k / 10 % 10) ∷ (b'0' + k % 10) ∷ rest) (omega arith)
    ∙ read_digit (a * 10 + k / 10 / 10 % 10) (k / 10 % 10) ((b'0' + k % 10) ∷ rest) (omega arith)
    ∙ read_digit ((a * 10 + k / 10 / 10 % 10) * 10 + k / 10 % 10) (k % 10) rest (omega arith)
    ∙ ap (λ t. read_from t rest) (omega arith)

read-grouped_from :
    (fuel n : ℕ) (rest : Text) → n < fuel → read (grouped_from fuel n ++ rest) ≡ read_from n rest
unfolding grouped_from
read-grouped_from zero n rest h = absurd (omega arith)
read-grouped_from (suc fuel) n rest h = elim (Bool-cases (ltb n 1000)) [
  | inl few ↦ rw (few, grouped_from) (read-show n rest)
  | inr many ↦
      rw (many, grouped_from, append_assoc)
        (read-grouped_from fuel (n / 1000) (b',' ∷ fixed_digits 3 (n % 1000) ++ rest) (ground arith)
          ∙ read_from-fixed_digits_three (n / 1000) (n % 1000) rest (omega arith)
          ∙ ap (λ t. read_from t rest) (omega arith))
]

-- With its commas, n reads as n.
pub read-grouped : (n : ℕ) (rest : Text) → read (grouped n ++ rest) ≡ read_from n rest
unfolding grouped
read-grouped n rest = read-grouped_from (suc n) n rest (omega arith)
