-- ===== src/Scripts/Sound.antt =====
-- What a run of scripts/verify-certificate.ts without a problem has checked.
use moltenpour.Prelude.{
  ℕ, List, [], ◌∷◌, ◌++◌, Option, none, some, Bool, true, ◌&&◌, ◌==◌, ==_iff, Option-cases, ◌∙◌,
  inl, inr, ◌≡◌, ◌↔◌, refl, ap, sym, arith, All,
}
use moltenpour.Rarity.{Rarity}
use moltenpour.Text.{Text}
use moltenpour.Scripts.Measure.{Measured, Rendered, measured_of}
use moltenpour.Scripts.Verdicts.{unless_holds, sheet_problems, page_verdict, all_problems}
use moltenpour.Scripts.Runs.{verify_certificate, found_problems, measured_all, proof_sheets}
use moltenpour.Scripts.Closing.{leaves_with, is_clean, verify_exit_lem}
use moltenpour.Scripts.Order.{
  IsInOrder, IsInOrder→sheet_problems, sheet_problems→IsInOrder, append_empty, no_measured,
  some-injective, unless_holds-empty,
}

-- A sheet that was rendered, and is in order.
abbrev pub IsRenderedWell : Option Rendered → Type 0
IsRenderedWell o = (r : Rendered) × (o ≡ some r) × IsInOrder (measured_of r)

sheets_in_order :
    (rendered : List (Option Rendered)) (ms : List Measured)
    → measured_all rendered ≡ some ms
    → all_problems ms ≡ []
    → All IsRenderedWell rendered
unfolding measured_all all_problems
sheets_in_order [] ms e h = tt
sheets_in_order (none ∷ rest) ms e h = cc
sheets_in_order (some r ∷ rest) ms e h = elim (Option-cases (measured_all rest)) [
  | inl failed ↦ no_measured (rw failed at e)
  | inr (others, e2) ↦
      let same = some-injective (rw e2 at e) in
      let (here, after) =
        append_empty (sheet_problems (measured_of r)) (all_problems others)
          (ap all_problems same ∙ h) in
      (
        (r, refl, sheet_problems→IsInOrder (measured_of r) here),
        sheets_in_order rest others e2 after,
      )
]

sheets_clean :
    (rendered : List (Option Rendered))
    → All IsRenderedWell rendered
    → (ms : List Measured) × (measured_all rendered ≡ some ms) × (all_problems ms ≡ [])
unfolding measured_all all_problems
sheets_clean [] h = ([], refl, refl)
sheets_clean (o ∷ rest) ((r, same, order), others) =
    let (ms, e, h) = sheets_clean rest others in
    (measured_of r ∷ ms, rw (same, e) refl, rw (IsInOrder→sheet_problems (measured_of r) order) h)

page_verdict-empty : (pages : ℕ) → (page_verdict pages ≡ []) ↔ (pages ≡ 1)
unfolding page_verdict unless_holds
page_verdict-empty pages =
    (λ h. (==_iff pages 1).0 (unless_holds-empty (pages == 1) _ h), λ h. rw h)

is_clean-empty : (ps : List Text) → is_clean (some ps) ≡ true → ps ≡ []
is_clean-empty [] h = refl
is_clean-empty (p ∷ ps) h = cc

clean_parts :
    (o : Option (List Measured)) (pages : Option ℕ)
    → is_clean (found_problems o pages) ≡ true
    → (ms : List Measured) × (o ≡ some ms) × (all_problems ms ≡ []) × (pages ≡ some 1)
unfolding found_problems
clean_parts none none h = cc
clean_parts none (some n) h = cc
clean_parts (some ms) none h = cc
clean_parts (some ms) (some n) h =
    let (sheets, print) =
      append_empty (all_problems ms) (page_verdict n)
        (is_clean-empty (all_problems ms ++ page_verdict n) h) in
    (ms, refl, sheets, ap some ((page_verdict-empty n).0 print))

clean_found :
    (rendered : List (Option Rendered))
    → All IsRenderedWell rendered
    → is_clean (found_problems (measured_all rendered) (some 1)) ≡ true
unfolding found_problems
clean_found rendered well =
    let (ms, e, h) = sheets_clean rendered well in rw (e, h, (page_verdict-empty 1).1 refl)

four :
    (a b c d : Bool)
    → (a && (b && (c && d))) ≡ true
    → (a ≡ true) × (b ≡ true) × (c ≡ true) × (d ≡ true)
four a b c d h = ground arith

every_sheet :
    (rendered : Rarity → Option Rendered)
    → All IsRenderedWell (proof_sheets rendered)
    → (r : Rarity) → IsRenderedWell (rendered r)
unfolding proof_sheets
every_sheet rendered (a, (b, (c, (d, _)))) Rarity.common = a
every_sheet rendered (a, (b, (c, (d, _)))) Rarity.uncommon = b
every_sheet rendered (a, (b, (c, (d, _)))) Rarity.rare = c
every_sheet rendered (a, (b, (c, (d, _)))) Rarity.singular = d

proof_sheets-IsRenderedWell :
    (rendered : Rarity → Option Rendered)
    → ((r : Rarity) → IsRenderedWell (rendered r))
    → All IsRenderedWell (proof_sheets rendered)
unfolding proof_sheets
proof_sheets-IsRenderedWell rendered h =
    (h Rarity.common, (h Rarity.uncommon, (h Rarity.rare, (h Rarity.singular, tt))))

-- A run of verify-certificate.ts leaves with 0 exactly when the server is created and listens,
-- the browser is launched, the sheet of every rarity is rendered and in order, and the print has one page. In
-- order means: 794 by 1123 pixels, a stack within the page, the ground kept and radial, one line
-- of serial and of office, a sigil within 300 pixels and hidden, no style that follows the
-- window, eight terms and eight values, a tick that is found and clear, and a footer on the
-- page.
pub verify_certificate_clean_iff :
    (created listened launched : Bool) (rendered : Rarity → Option Rendered) (pages : Option ℕ)
    → (leaves_with 0 (verify_certificate created listened launched rendered pages) ≡ true) ↔ (
        (created ≡ true)
        × (listened ≡ true)
        × (launched ≡ true)
        × (pages ≡ some 1)
        × ((r : Rarity) → IsRenderedWell (rendered r)))
unfolding verify_certificate
verify_certificate_clean_iff created listened launched rendered pages =
    let problems = found_problems (measured_all (proof_sheets rendered)) pages in
    let e = verify_exit_lem created listened launched problems in
    (
      λ h.
          let (a, b, c, d) = four created listened launched (is_clean problems) (sym e ∙ h) in
          let (ms, found, none_left, single) =
            clean_parts (measured_all (proof_sheets rendered)) pages d in
          (
            a,
            b,
            c,
            single,
            every_sheet rendered (sheets_in_order (proof_sheets rendered) ms found none_left),
          ),
      λ (a, b, c, single, well).
          e
          ∙ rw (a, b, c, single)
              (clean_found (proof_sheets rendered) (proof_sheets-IsRenderedWell rendered well)),
    )
