-- ===== src/Certificate/Fits.antt =====
-- The scaled sheet and the column that it stands in.
use moltenpour.Prelude.{
  ℕ, zero, suc, ◌+◌, ◌*◌, ◌^◌, ◌≤◌, ◌<◌, Bool, true, false, ◌&&◌, leb, leb→le, ◌==◌, ==_iff,
  Bool-cases, ◌⊎◌, inl, inr, ◌≡◌, refl, ap, ◌∙◌, arith, pos, negsuc,
}
use moltenpour.Number.{Number, fin, nan, pos_inf, neg_inf, of_ℕ, unit, floor, min, ◌/ₙ◌, running}
use moltenpour.Number.Quotient.{one-le-quotient}
use moltenpour.Number.UpTo.{nat}
use moltenpour.Number.Order.{min-eq_left, /-IsNonneg, IsNonneg_of_IsNonnegFinite}
use moltenpour.Number.Whole.{of_ℕ-IsNonnegFinite, of_ℕ-IsPositive, floor-of_ℕ}
use moltenpour.Number.Exact.{of_ℕ-mul}
use moltenpour.Certificate.Frame.{page_w}
use moltenpour.Certificate.View.{Zoom, scale_of, shown_width}

is_whole : Number → ℕ → Bool
is_whole (fin (pos m)) n = m == n * unit
is_whole x n = false

is_whole→eq : (x : Number) (n : ℕ) → is_whole x n ≡ true → x ≡ of_ℕ n
unfolding is_whole of_ℕ
is_whole→eq nan n h = absurd (ground arith)
is_whole→eq pos_inf n h = absurd (ground arith)
is_whole→eq neg_inf n h = absurd (ground arith)
is_whole→eq (fin (negsuc m)) n h = absurd (ground arith)
is_whole→eq (fin (pos m)) n h = ap (λ (k : ℕ). fin (pos k)) ((==_iff m (n * unit)).0 h)

both : (a b : Bool) → (a && b) ≡ true → (a ≡ true) × (b ≡ true)
both true b h = (refl, h)
both false b h = absurd (ground arith)

-- The width in which the sheet is shown is whole, at most the column's, and at most one pixel less.
fits : ℕ → Bool
fits w =
    let shown = shown_width Zoom.fit (of_ℕ w) in
    let s = nat shown in is_whole shown s && (leb s w && leb w (s + 1))

fit_up_to : ℕ → Bool
fit_up_to zero = true
fit_up_to (suc n) = fits (suc n) && fit_up_to n

-- Every column as wide as the sheet or narrower, one by one.
all_fit : fit_up_to 794 ≡ true
unfolding running is_whole fits fit_up_to shown_width scale_of page_w nat
all_fit = refl

fit_of_all : (n w : ℕ) → 0 < w → w ≤ n → fit_up_to n ≡ true → fits w ≡ true
unfolding fit_up_to
fit_of_all zero w p le h = absurd (omega arith)
fit_of_all (suc n) w p le h =
    let (here, below) = both (fits (suc n)) (fit_up_to n) h in
    elim (Bool-cases (w == suc n)) [
      | inl same ↦ ap fits ((==_iff w (suc n)).0 same) ∙ here
      | inr less ↦ fit_of_all n w p (ground arith) below
    ]

wide_width : (w : ℕ) → 794 ≤ w → w < 2 ^ 52 → shown_width Zoom.fit (of_ℕ w) ≡ of_ℕ 794
unfolding shown_width scale_of page_w
wide_width w le lt =
    let large = one-le-quotient w 794 (omega arith) lt (omega arith) le in
    let one : min (of_ℕ 1) (of_ℕ w /ₙ of_ℕ 794) ≡ of_ℕ 1 =
      min-eq_left (of_ℕ-IsNonnegFinite 1)
        (/-IsNonneg (IsNonneg_of_IsNonnegFinite (of_ℕ-IsNonnegFinite w))
          (of_ℕ-IsPositive 794 (omega arith)))
        large in
    rw one (ap floor (of_ℕ-mul 794 1 (omega arith)) ∙ floor-of_ℕ 794)

-- Fitted to a column of 1 to 2 ^ 52 - 1 pixels, the sheet is shown in a whole number of pixels
-- that is at most the width of the column and at most 794, and that is 794 or within one pixel
-- of the column.
pub shown_width_fits :
    (w : ℕ)
    → 0 < w
    → w < 2 ^ 52
    → (s : ℕ) × (shown_width Zoom.fit (of_ℕ w) ≡ of_ℕ s)
      × (s ≤ w)
      × (s ≤ 794)
      × ((s ≡ 794) ⊎ (w ≤ s + 1))
shown_width_fits w p lt = elim (Bool-cases (leb w 794)) [
  | inl narrow ↦
      let s = nat (shown_width Zoom.fit (of_ℕ w)) in
      let small = leb→le w 794 narrow in
      let (whole, rest) =
        both (is_whole (shown_width Zoom.fit (of_ℕ w)) s) (leb s w && leb w (s + 1))
          (unfold fits in fit_of_all 794 w p small all_fit) in
      let (within, near) = both (leb s w) (leb w (s + 1)) rest in
      let le = leb→le s w within in
      (s, is_whole→eq _ s whole, le, omega arith, inr (leb→le w (s + 1) near))
  | inr wide ↦ (794, wide_width w (ground arith) lt, ground arith, omega arith, inl refl)
]
