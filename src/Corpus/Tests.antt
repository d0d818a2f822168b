-- ===== src/Corpus/Tests.antt =====
-- The rows with a cosine and a sine that point one way, and a row of api/sigil/testdata/corpus.json.
use moltenpour.Prelude.{◌≡◌, refl, length}
use moltenpour.Number.{Number, of_ℕ, running}
use moltenpour.Telemetry.Tests.{second}
use moltenpour.Corpus.Defs.{rows, next, drawn_raw}
use moltenpour.Corpus.Rows.{IsTold, AllFrom, rows-IsTold}

abbrev cos : Number → Number
cos a = of_ℕ 1

abbrev sin : Number → Number
sin a = of_ℕ 0

rows-IsTold_example : (length (rows cos sin) ≡ 300) × AllFrom IsTold 0 (rows cos sin)
rows-IsTold_example = rows-IsTold cos sin

-- The second row is drawn from the state that the wall clock of the first leaves.
row_1_raw : (drawn_raw (next 0x5eed_1234).1).0 ≡ second
unfolding running drawn_raw next
row_1_raw = refl
