-- ===== src/Scripts/Runs.antt =====
-- scripts/verify-certificate.ts and scripts/certificate-pdf.ts: the course of a run. What is awaited
-- succeeds with a value or throws; what a run does to the world is the list of its effects.
use moltenpour.Prelude.{
  ℕ, List, [], ◌∷◌, ◌++◌, Option, none, some, Bool, true, false, ◌==◌, if◌then◌else◌,
}
use moltenpour.Text.{Text, codes}
use moltenpour.Rarity.{Rarity}
use moltenpour.Record.{PourRecord}
use moltenpour.Shell.{Settled, fulfilled, rejected}
use moltenpour.Scripts.Measure.{Measured, Rendered, measured_of}
use moltenpour.Scripts.Verdicts.{all_problems, page_verdict, exit_code}

pub data RunEffect : Type 0 where
  server_started : RunEffect
  server_closed : RunEffect
  browser_started : RunEffect
  browser_closed : RunEffect
  pdf_written : Text → RunEffect
  exited : ℕ → RunEffect
  uncaught : RunEffect

-- How a piece of a run ends: at its last line, with an exception, or in `process.exit`.
pub data Ending : Type 0 where
  finished : Ending
  threw : Ending
  quit : ℕ → Ending

pub record Course : Type 0 where
  pub effects : List RunEffect
  pub ending : Ending

abbrev does : List RunEffect → Course
does effects = record { effects = effects; ending = finished }

abbrev throws : Course
throws = record { effects = []; ending = threw }

abbrev quits : ℕ → Course
quits code = record { effects = exited code ∷ []; ending = quit code }

-- An awaited call without a value.
abbrev pub awaited : Bool → List RunEffect → Course
awaited true effects = does effects
awaited false effects = throws

abbrev resumed : Ending → List RunEffect → Course → Course
resumed finished before next = record { effects = before ++ next.effects; ending = next.ending }
resumed threw before next = record { effects = before; ending = threw }
resumed (quit code) before next = record { effects = before; ending = quit code }

-- One piece and then the next, where the first comes to its end.
unfoldable pub and_then : Course → Course → Course
and_then first next = resumed first.ending first.effects next

-- `finally`: after the last line and after an exception, but not after `process.exit`, which ends the
-- process there and then.
abbrev cleaned : Ending → List RunEffect → List RunEffect → List RunEffect
cleaned (quit code) effects cleanup = effects
cleaned finished effects cleanup = effects ++ cleanup
cleaned threw effects cleanup = effects ++ cleanup

unfoldable pub with_finally : Course → List RunEffect → Course
with_finally c cleanup = record { effects = cleaned c.ending c.effects cleanup; ending = c.ending }

-- At the top level an exception ends the process.
abbrev topmost : Ending → List RunEffect → List RunEffect
topmost threw effects = effects ++ uncaught ∷ []
topmost finished effects = effects
topmost (quit code) effects = effects

unfoldable pub outcome : Course → List RunEffect
outcome c = topmost c.ending c.effects

-- `await browser?.close(); await server.close();`, for a browser that was launched or not.
unfoldable pub closing : Bool → List RunEffect
closing true = browser_closed ∷ server_closed ∷ []
closing false = server_closed ∷ []

-- Whether the launch is reached and succeeds.
unfoldable pub launch_reached : Bool → Bool → Bool
launch_reached true launched = launched
launch_reached false launched = false

-- `server.listen()` and `puppeteer.launch(...)`.
unfoldable pub opening : Bool → Bool → Course
opening listened launched = and_then (awaited listened []) (awaited launched (browser_started ∷ []))

abbrev pub prepend_measured : Measured → Option (List Measured) → Option (List Measured)
prepend_measured m none = none
prepend_measured m (some ms) = some (m ∷ ms)

-- The loop: every sheet is measured, or the browser throws on the way.
unfoldable pub measured_all : List (Option Rendered) → Option (List Measured)
measured_all [] = some []
measured_all (none ∷ rest) = none
measured_all (some r ∷ rest) = prepend_measured (measured_of r) (measured_all rest)

-- The sheets of the proof page, in the order of the loop.
unfoldable pub proof_sheets : (Rarity → Option Rendered) → List (Option Rendered)
proof_sheets rendered =
    rendered Rarity.common
    ∷ rendered Rarity.uncommon
    ∷ rendered Rarity.rare
    ∷ rendered Rarity.singular
    ∷ []

-- The end of the measuring and of the print, for the number of pages printed: the problems found.
unfoldable pub found_problems : Option (List Measured) → Option ℕ → Option (List Text)
found_problems (some ms) (some pages) = some (all_problems ms ++ page_verdict pages)
found_problems none pages = none
found_problems (some ms) none = none

abbrev pub reported : Option (List Text) → Course
reported none = throws
reported (some problems) = quits (exit_code problems)

abbrev pub sheets_checked : Option (List Text) → Course
sheets_checked none = throws
sheets_checked (some problems) = does (pdf_written (codes "artifacts/certificate/common.pdf") ∷ [])

-- scripts/verify-certificate.ts, for a server that is created or not, that listens or not, a browser
-- that is launched or not, what is rendered for each rarity, and the number of printed pages.
unfoldable pub verify_certificate :
    (created listened launched : Bool) → (Rarity → Option Rendered) → Option ℕ → List RunEffect
verify_certificate created listened launched rendered pages =
    let problems = found_problems (measured_all (proof_sheets rendered)) pages in
    let body = and_then (opening listened launched) (sheets_checked problems) in
    outcome (
      and_then (awaited created (server_started ∷ [])) (
        and_then (with_finally body (closing (launch_reached listened launched)))
          (reported problems)))

-- The catch clause around `getPour`: every failure leaves with 1.
abbrev fetched : Settled PourRecord → (PourRecord → Course) → Course
fetched (rejected e) next = quits 1
fetched (fulfilled pour) next = next pour

abbrev pub pdf_name : PourRecord → Text
pdf_name pour = codes "artifacts/certificate/" ++ pour.serial ++ codes ".pdf"

-- The print: a file for one page, `process.exit(1)` for any other number.
unfoldable pub written : PourRecord → Option ℕ → Bool → Course
written pour none wrote = throws
written pour (some pages) wrote =
    if pages == 1 then awaited wrote (pdf_written (pdf_name pour) ∷ []) else quits 1

-- What follows the record.
unfoldable pub exported : Bool → Bool → Bool → Option ℕ → Bool → PourRecord → Course
exported created listened launched pages wrote pour =
    let body = and_then (opening listened launched) (written pour pages wrote) in
    and_then (awaited created (server_started ∷ []))
      (with_finally body (closing (launch_reached listened launched)))

abbrev with_id : Option Text → Course → Course
with_id none next = quits 2
with_id (some []) next = quits 2
with_id (some (c ∷ s)) next = next

-- scripts/certificate-pdf.ts, for its argument, how `getPour` ends, and the rest of the world.
unfoldable pub certificate_pdf :
    Option Text
    → Settled PourRecord
    → (created listened launched : Bool) → Option ℕ
    → Bool
    → List RunEffect
certificate_pdf pour_id got created listened launched pages wrote =
    outcome (with_id pour_id (fetched got (exported created listened launched pages wrote)))
