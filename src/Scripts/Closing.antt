-- ===== src/Scripts/Closing.antt =====
-- What the scripts leave running, and how they end.
use moltenpour.Prelude.{
  ℕ, suc, List, [], ◌∷◌, Option, none, some, Bool, true, false, ◌&&◌, ◌==◌, Bool-cases, inl, inr,
  ◌≡◌, refl,
}
use moltenpour.Text.{Text}
use moltenpour.Rarity.{Rarity}
use moltenpour.Record.{PourRecord}
use moltenpour.Shell.{Settled, fulfilled, rejected}
use moltenpour.Scripts.Measure.{Rendered}
use moltenpour.Scripts.Verdicts.{exit_code}
use moltenpour.Scripts.Runs.{
  awaited, RunEffect, server_started, server_closed, browser_started, browser_closed, pdf_written,
  exited, and_then, with_finally, outcome, closing, launch_reached, opening, sheets_checked,
  reported, found_problems, measured_all, proof_sheets, verify_certificate, written, exported,
  certificate_pdf, pdf_name,
}

-- How many servers, and browsers, are open after these effects: what is opened less what is closed.
pub record Held : Type 0 where
  pub servers_opened : ℕ
  pub servers_closed : ℕ
  pub browsers_opened : ℕ
  pub browsers_closed : ℕ

unfoldable pub held_from : Held → List RunEffect → Held
held_from h [] = h
held_from h (server_started ∷ es) =
    held_from (record h { servers_opened = suc h.servers_opened }) es
held_from h (server_closed ∷ es) = held_from (record h { servers_closed = suc h.servers_closed }) es
held_from h (browser_started ∷ es) =
    held_from (record h { browsers_opened = suc h.browsers_opened }) es
held_from h (browser_closed ∷ es) =
    held_from (record h { browsers_closed = suc h.browsers_closed }) es
held_from h (_ ∷ es) = held_from h es

abbrev pub held : List RunEffect → Held
held es =
    held_from
      (record { servers_opened = 0; servers_closed = 0; browsers_opened = 0; browsers_closed = 0 })
      es

pub record LeavesNothing (es : List RunEffect) : Type 0 where
  pub servers : (held es).servers_opened ≡ (held es).servers_closed
  pub browsers : (held es).browsers_opened ≡ (held es).browsers_closed

running_course : Unit {0}
unfolding held_from and_then with_finally outcome closing launch_reached opening verify_certificate
    certificate_pdf exported written exit_code
running_course = tt

unfoldable pub leaves_with : ℕ → List RunEffect → Bool
leaves_with code [] = false
leaves_with code (exited n ∷ []) = n == code
leaves_with code (e ∷ es) = leaves_with code es

verify_LeavesNothing_lem :
    (created listened launched : Bool) (problems : Option (List Text))
    → LeavesNothing (
        outcome (
          and_then (awaited created (server_started ∷ [])) (
            and_then
              (with_finally
                (and_then (opening listened launched) (sheets_checked problems))
                (closing (launch_reached listened launched)))
              (reported problems))))
unfolding running_course
verify_LeavesNothing_lem false a b o = record { servers = refl; browsers = refl }
verify_LeavesNothing_lem true false b o = record { servers = refl; browsers = refl }
verify_LeavesNothing_lem true true false o = record { servers = refl; browsers = refl }
verify_LeavesNothing_lem true true true none = record { servers = refl; browsers = refl }
verify_LeavesNothing_lem true true true (some p) = record { servers = refl; browsers = refl }

-- A run of verify-certificate.ts closes as many servers as it starts and as many browsers as it
-- launches, wherever the creation of the server, its listening, the launch, the measuring or the
-- print fails.
pub verify_certificate-LeavesNothing :
    (created listened launched : Bool) (rendered : Rarity → Option Rendered) (pages : Option ℕ)
    → LeavesNothing (verify_certificate created listened launched rendered pages)
unfolding verify_certificate
verify_certificate-LeavesNothing created listened launched rendered pages =
    verify_LeavesNothing_lem created listened launched
      (found_problems (measured_all (proof_sheets rendered)) pages)

-- Whether a run comes to its check of the problems with none of them.
abbrev pub is_clean : Option (List Text) → Bool
is_clean none = false
is_clean (some []) = true
is_clean (some (p ∷ ps)) = false

pub verify_exit_lem :
    (created listened launched : Bool) (problems : Option (List Text))
    → leaves_with 0 (
        outcome (
          and_then (awaited created (server_started ∷ [])) (
            and_then
              (with_finally
                (and_then (opening listened launched) (sheets_checked problems))
                (closing (launch_reached listened launched)))
              (reported problems))))
      ≡ (created && (listened && (launched && is_clean problems)))
unfolding running_course leaves_with
verify_exit_lem false a b o = refl
verify_exit_lem true false b o = refl
verify_exit_lem true true false o = refl
verify_exit_lem true true true none = refl
verify_exit_lem true true true (some []) = refl
verify_exit_lem true true true (some (p ∷ ps)) = refl

-- The files that a run writes.
unfoldable pub files : List RunEffect → List Text
files [] = []
files (pdf_written name ∷ es) = name ∷ files es
files (e ∷ es) = files es

-- Whether everything in front of the print succeeds.
abbrev pub is_single : Option ℕ → Bool
is_single none = false
is_single (some pages) = pages == 1

abbrev pub names_pour : Option Text → Bool
names_pour none = false
names_pour (some []) = false
names_pour (some (c ∷ s)) = true

abbrev pub file_if : Settled PourRecord → Bool → List Text
file_if (rejected e) good = []
file_if (fulfilled pour) true = pdf_name pour ∷ []
file_if (fulfilled pour) false = []

written_files :
    (pour : PourRecord) (created listened launched : Bool) (pages : Option ℕ) (wrote : Bool)
    → files (outcome (exported created listened launched pages wrote pour))
      ≡ file_if (fulfilled pour) (created && (listened && (launched && (is_single pages && wrote))))
unfolding running_course files
written_files pour false b c pages wrote = refl
written_files pour true false c pages wrote = refl
written_files pour true true false pages wrote = refl
written_files pour true true true none wrote = refl
written_files pour true true true (some n) true = elim (Bool-cases (n == 1)) [
  | inl one ↦ rw one
  | inr more ↦ rw more
]
written_files pour true true true (some n) false = elim (Bool-cases (n == 1)) [
  | inl one ↦ rw one
  | inr more ↦ rw more
]

-- A run of certificate-pdf.ts writes a file, one named by the serial of the record, exactly when
-- it is given an id, getPour gives a record, the server is created and listens, the browser is
-- launched, the print has one page and the writing succeeds; every failure on the way leaves no
-- file.
pub files-certificate_pdf :
    (pour_id : Option Text) (got : Settled PourRecord) (created listened launched : Bool)
    (pages : Option ℕ) (wrote : Bool)
    → files (certificate_pdf pour_id got created listened launched pages wrote)
      ≡ file_if got (
          names_pour pour_id && (created && (listened && (launched && (is_single pages && wrote)))))
unfolding certificate_pdf files outcome
files-certificate_pdf none (fulfilled pour) created listened launched pages wrote = refl
files-certificate_pdf none (rejected e) created listened launched pages wrote = refl
files-certificate_pdf (some []) (fulfilled pour) created listened launched pages wrote = refl
files-certificate_pdf (some []) (rejected e) created listened launched pages wrote = refl
files-certificate_pdf (some (c ∷ s)) (fulfilled pour) created listened launched pages wrote =
    written_files pour created listened launched pages wrote
files-certificate_pdf (some (c ∷ s)) (rejected e) created listened launched pages wrote = refl
