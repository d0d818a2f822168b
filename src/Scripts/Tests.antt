-- ===== src/Scripts/Tests.antt =====
-- A run over one sheet that is in order, and runs that fail on the way.
use moltenpour.Prelude.{ℕ, [], ◌∷◌, Option, none, some, true, false, ◌↔◌, ◌≡◌, refl}
use moltenpour.Number.{of_ℕ, running}
use moltenpour.Text.{codes}
use moltenpour.Api.{text_eq}
use moltenpour.Rarity.{Rarity}
use moltenpour.Certificate.{specimen}
use moltenpour.Shell.{fulfilled}
use moltenpour.Scripts.Chrome.{
  find_chrome, set_value, sorted_texts, insert_text, text_before, reversed_onto, cached_paths,
  cache_base, first_existing, system_paths,
}
use moltenpour.Scripts.Measure.{
  Box, Rendered, measured_of, is_there, starts_with, stack_from, overlaps, boxes_meet, gap_to,
  units_found, terms_of, values_of, or_text, first_codes, is_digit, has_viewport_unit, any_unit,
  unit_at, viewport_units, ends_word,
}
use moltenpour.Scripts.Verdicts.{
  sheet_problems, size_verdict, stack_verdict, ground_verdicts, line_verdicts, sigil_verdict,
  markup_verdicts, tick_verdict, footer_verdict, unless_holds, no_texts, same_number, includes,
}
use moltenpour.Scripts.Runs.{verify_certificate, certificate_pdf}
use moltenpour.Scripts.Closing.{
  LeavesNothing, verify_certificate-LeavesNothing, leaves_with, files, file_if,
  files-certificate_pdf,
}
use moltenpour.Scripts.Sound.{IsRenderedWell, verify_certificate_clean_iff}

abbrev box : ℕ → ℕ → ℕ → ℕ → ℕ → ℕ → Box
box left right top bottom width height = record {
  left = of_ℕ left;
  right = of_ℕ right;
  top = of_ℕ top;
  bottom = of_ℕ bottom;
  width = of_ℕ width;
  height = of_ℕ height;
}

abbrev good_sheet : Rendered
good_sheet = record {
  sheet = box 0 794 0 1123 794 1123;
  padding_top = of_ℕ 0;
  padding_bottom = of_ℕ 0;
  overflow = codes "hidden";
  color_adjust = codes "exact";
  webkit_color_adjust = [];
  background_image = codes "radial-gradient(115% 70% at 50% -10%, rgb(42, 17, 54) 0%)";
  children = record { height = of_ℕ 1025; margin_top = of_ℕ 0; margin_bottom = of_ℕ 0 } ∷ [];
  office_lines = 1;
  serial_lines = 1;
  serial_text = codes "MP-0001286-42E2";
  svg = box 247 547 300 600 300 300;
  svg_hidden = true;
  styled_elements = record { tag = codes "section"; style_text = codes "width: 794px" } ∷ [];
  dl = some (8, 8);
  footer_bottom = of_ℕ 1077;
  disclaimer = box 62 500 1050 1077 438 27;
  disclaimer_lines = 2;
  tick = some (box 40 55 1068 1083 15 15);
}

abbrev every_good : Rarity → Option Rendered
every_good r = some good_sheet

abbrev one_page : Option ℕ
one_page = some 1

good_sheet_clean : sheet_problems (measured_of good_sheet) ≡ []
unfolding running sheet_problems size_verdict stack_verdict ground_verdicts line_verdicts
    sigil_verdict markup_verdicts tick_verdict footer_verdict unless_holds no_texts same_number
    includes starts_with text_eq is_there measured_of stack_from overlaps boxes_meet gap_to
    units_found has_viewport_unit any_unit unit_at viewport_units ends_word is_digit terms_of
    values_of or_text first_codes
good_sheet_clean = refl

verify_certificate_clean_iff_example :
    (leaves_with 0 (verify_certificate true true true every_good one_page) ≡ true) ↔ (
      (true ≡ true)
      × (true ≡ true)
      × (true ≡ true)
      × (one_page ≡ one_page)
      × ((r : Rarity) → IsRenderedWell (every_good r)))
verify_certificate_clean_iff_example =
    verify_certificate_clean_iff true true true every_good one_page

verify_certificate-LeavesNothing_example :
    LeavesNothing (verify_certificate true true false every_good none)
verify_certificate-LeavesNothing_example =
    verify_certificate-LeavesNothing true true false every_good none

files-certificate_pdf_example :
    files (
      certificate_pdf
        (some (codes "a1"))
        (fulfilled (specimen Rarity.rare 2))
        true
        true
        true
        (some 1)
        true)
    ≡ file_if (fulfilled (specimen Rarity.rare 2)) true
files-certificate_pdf_example =
    files-certificate_pdf (some (codes "a1")) (fulfilled (specimen Rarity.rare 2)) true true true
      (some 1) true

units_fixed : has_viewport_unit (codes "width: 794px") ≡ false
unfolding has_viewport_unit any_unit unit_at viewport_units ends_word is_digit
units_fixed = refl

units_window : has_viewport_unit (codes "gap: clamp(14px, 1.6vw, 22px)") ≡ true
unfolding has_viewport_unit any_unit unit_at viewport_units ends_word is_digit
units_window = refl

-- The newest cached Chrome comes before a system install.
chrome_newest :
    find_chrome none
      (codes "/root")
      (λ p. true)
      (λ base. codes "119" ∷ codes "121" ∷ codes "120" ∷ [])
    ≡ some (codes "/root/.cache/puppeteer/chrome/121/chrome-linux64/chrome")
unfolding find_chrome set_value sorted_texts insert_text text_before reversed_onto cached_paths
    cache_base first_existing system_paths
chrome_newest = refl
