-- ===== src/Scripts/Verdicts.antt =====
-- scripts/verify-certificate.ts: the checks of a measured sheet, each an empty list or its problem.
-- What a passed check prints is not modelled.
use moltenpour.Prelude.{
  ℕ, List, [], ◌∷◌, ◌++◌, Bool, true, false, ◌&&◌, ◌||◌, ◌==◌, not, if◌then◌else◌,
}
use moltenpour.Number.{Number, of_ℕ, round, neg, ◌-ₙ◌, ◌<=ₙ◌}
use moltenpour.Text.{Text, codes, show, show_number, to_fixed}
use moltenpour.Api.{text_eq}
use moltenpour.Scripts.Measure.{Measured, starts_with, is_there}

abbrev pub page_w : ℕ
page_w = 794

abbrev pub page_h : ℕ
page_h = 1123

-- `a === b` of numbers.
unfoldable pub same_number : Number → Number → Bool
same_number a b = a <=ₙ b && b <=ₙ a

-- `s.includes(part)`.
unfoldable pub includes : Text → Text → Bool
includes part [] = starts_with part []
includes part (c ∷ s) = starts_with part (c ∷ s) || includes part s

-- `ss.join(", ")`.
unfoldable pub joined : List Text → Text
joined [] = []
joined (s ∷ []) = s
joined (s ∷ t ∷ ts) = s ++ codes ", " ++ joined (t ∷ ts)

unfoldable pub show_bool : Bool → Text
show_bool true = codes "true"
show_bool false = codes "false"

-- `fail`, unless the check holds.
unfoldable pub unless_holds : Bool → Text → List Text
unless_holds true problem = []
unless_holds false problem = problem ∷ []

unfoldable pub size_verdict : Measured → List Text
size_verdict m =
    unless_holds (same_number (round m.w) (of_ℕ page_w) && same_number (round m.h) (of_ℕ page_h)) (
      codes "sheet is "
      ++ show_number (round m.w)
      ++ codes "×"
      ++ show_number (round m.h)
      ++ codes ", expected "
      ++ show page_w
      ++ codes "×"
      ++ show page_h)

unfoldable pub stack_verdict : Measured → List Text
stack_verdict m =
    let headroom = of_ℕ page_h -ₙ m.stack in
    unless_holds (m.stack <=ₙ of_ℕ page_h) (
      codes "content stack "
      ++ to_fixed 1 m.stack
      ++ codes "px OVERFLOWS the "
      ++ show page_h
      ++ codes "px box by "
      ++ to_fixed 1 (neg headroom)
      ++ codes "px — footer would be clipped")

unfoldable pub ground_verdicts : Measured → List Text
ground_verdicts m =
    unless_holds (text_eq m.color_adjust (codes "exact")) (
      codes "print-color-adjust is \""
      ++ m.color_adjust
      ++ codes "\", the ground will drop at print")
    ++ unless_holds (includes (codes "radial-gradient") m.background)
        (codes "ground is \"" ++ m.background ++ codes "\"")

unfoldable pub line_verdicts : Measured → List Text
line_verdicts m =
    unless_holds (m.serial_lines == 1) (
      codes "serial wrapped onto "
      ++ show m.serial_lines
      ++ codes " lines — reads as a document defect")
    ++ unless_holds (m.office_lines == 1)
        (codes "office label wrapped onto " ++ show m.office_lines ++ codes " lines")

unfoldable pub sigil_verdict : Measured → List Text
sigil_verdict m = unless_holds (m.sigil_w <=ₙ of_ℕ 300 && m.sigil_h <=ₙ of_ℕ 300) (
    codes "sigil "
    ++ to_fixed 0 m.sigil_w
    ++ codes "×"
    ++ to_fixed 0 m.sigil_h
    ++ codes " exceeds the 300px cap")

unfoldable pub no_texts : List Text → Bool
no_texts [] = true
no_texts (s ∷ ss) = false

unfoldable pub markup_verdicts : Measured → List Text
markup_verdicts m =
    unless_holds (no_texts m.vp_units) (codes "viewport units found on: " ++ joined m.vp_units)
    ++ unless_holds (m.has_dl && m.dt_count == 8 && m.dd_count == 8) (
        codes "ledger markup wrong: dl="
        ++ show_bool m.has_dl
        ++ codes " dt="
        ++ show m.dt_count
        ++ codes " dd="
        ++ show m.dd_count)
    ++ unless_holds m.sigil_hidden (codes "sigil is not aria-hidden")

unfoldable pub tick_verdict : Measured → List Text
tick_verdict m =
    if not (is_there m.tick_gap_x)
    then codes "could not find the bottom-left registration tick to measure against" ∷ []
    else unless_holds (not m.tick_overlap)
        (codes "disclaimer overlaps the corner registration tick — reads as a printing fault")

unfoldable pub footer_verdict : Measured → List Text
footer_verdict m = unless_holds (of_ℕ 0 <=ₙ m.footer_bottom_gap) (
    codes "footer runs "
    ++ to_fixed 1 (neg m.footer_bottom_gap)
    ++ codes "px past the page edge and will be clipped")

-- The problems of one sheet, in the order in which they are found.
unfoldable pub sheet_problems : Measured → List Text
sheet_problems m =
    size_verdict m
    ++ stack_verdict m
    ++ ground_verdicts m
    ++ line_verdicts m
    ++ sigil_verdict m
    ++ markup_verdicts m
    ++ tick_verdict m
    ++ footer_verdict m

unfoldable pub page_verdict : ℕ → List Text
page_verdict page_count =
    unless_holds (page_count == 1) (
      codes "printed "
      ++ show page_count
      ++ codes " pages; the certificate is a single fixed sheet")

unfoldable pub all_problems : List Measured → List Text
all_problems [] = []
all_problems (m ∷ ms) = sheet_problems m ++ all_problems ms

unfoldable pub exit_code : List Text → ℕ
exit_code [] = 0
exit_code (problem ∷ problems) = 1
