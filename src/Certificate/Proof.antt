-- ===== src/Certificate/Proof.antt =====
-- app/certificate/proof.tsx: the proof sheet, one certificate for each rarity, and the sheet of a
-- record from the query. `JSON.parse` and the reading of the query come in as the record they yield.
use moltenpour.Prelude.{
  ℕ, suc, ◌+◌, ◌-◌, ◌*◌, ◌%◌, ◌/◌, List, [], ◌∷◌, ◌++◌, Option, none, some, get_or, true,
  if◌then◌else◌, ltb,
}
use Prim.Native.Nat.{bit_and}
use moltenpour.Number.{Number, of_ℕ, ratio, ◌*ₙ◌}
use moltenpour.Text.{Text, codes, show, pad_start}
use moltenpour.Api.{rarity_name}
use moltenpour.Rarity.{Rarity}
use moltenpour.Record.{PourRecord}
use moltenpour.Markup.{Node, text, word, css, px, el, lit, styled, a, given}
use moltenpour.Design.{color, font}
use moltenpour.Certificate.Sheet.{certificate}

abbrev pub all_rarities : List Rarity
all_rarities = Rarity.common ∷ Rarity.uncommon ∷ Rarity.rare ∷ Rarity.singular ∷ []

-- A digit of `toString(16).toUpperCase()`.
abbrev hex_digit : ℕ → ℕ
hex_digit d = if ltb d 10 then b'0' + d else b'A' + (d - 10)

-- `(n & 0xffff).toString(16).toUpperCase().padStart(4, "0")`.
unfoldable pub folio : ℕ → Text
folio n =
    let w = bit_and n 0xffff in
    hex_digit (w / 4096)
    ∷ hex_digit (w / 256 % 16)
    ∷ hex_digit (w / 16 % 16)
    ∷ hex_digit (w % 16)
    ∷ []

unfoldable pub specimen : Rarity → ℕ → PourRecord
specimen rarity i =
    let tier_index = get_or (of_ℕ 0 ∷ of_ℕ 2 ∷ of_ℕ 4 ∷ of_ℕ 5 ∷ []) i (of_ℕ 0) in
    let amount_cents = get_or (of_ℕ 0 ∷ of_ℕ 1299 ∷ of_ℕ 5999 ∷ of_ℕ 14900 ∷ []) i (of_ℕ 0) in
    let seed = 1284 + i * 7919 in
    let droplets = of_ℕ (82 + i * 37) in
    record {
      id = codes "proof-" ++ rarity_name rarity;
      ledger_position = of_ℕ (1284 + i);
      tier_index = tier_index;
      amount_cents = amount_cents;
      timestamp_ms = of_ℕ 1_785_000_000_000;
      telemetry = record {
        droplets_landed = droplets;
        peak_velocity = ratio 198061 100;
        tilt_energy = ratio 125 10;
        hold_ms = of_ℕ 7085;
      };
      violations = [];
      seed = of_ℕ seed;
      rarity = rarity;
      rarity_score = of_ℕ (300 + i * 150);
      serial = codes "MP-" ++ pad_start 7 b'0' (show (1284 + i)) ++ codes "-" ++ folio seed;
      batch = pad_start 3 b'0' (show ((1284 + i) % 1000)) ++ codes "-T";
      mass_grams = droplets *ₙ ratio 379 100;
      issued = codes "2026-08-02";
    }

module _ {H : Type 0} where
  -- The callback of `RARITIES.map`.
  unfoldable pub proof_figure : Rarity → Node H → Node H
  proof_figure rarity page =
      el "figure"
        (styled
            (px "margin" 0 ∷ css "display" "flex" ∷ css "flexDirection" "column" ∷ px "gap" 10 ∷ [])
          ∷ [])
        (el "div" (given "data-proof-sheet" (rarity_name rarity) ∷ []) (page ∷ [])
          ∷ el "figcaption"
              (styled (
                  px "fontSize" 12
                  ∷ css "letterSpacing" "2.4px"
                  ∷ css "textTransform" "uppercase"
                  ∷ word "color" color.gold_label
                  ∷ [])
                ∷ [])
              (text (rarity_name rarity) ∷ [])
          ∷ [])

  unfoldable pub figures : (cos sin : Number → Number) → ℕ → List Rarity → List (Node H)
  figures cos sin i [] = []
  figures cos sin i (r ∷ rs) =
      proof_figure r (certificate cos sin true (specimen r i)) ∷ figures cos sin (suc i) rs

  unfoldable pub proof_of_all : (cos sin : Number → Number) → Node H
  proof_of_all cos sin =
      el "main"
        (styled (
            px "padding" 24 ∷ word "fontFamily" font.instrument ∷ word "color" color.gold_body ∷ [])
          ∷ [])
        (el "h1"
            (styled (
                px "fontSize" 12
                ∷ css "letterSpacing" "3px"
                ∷ css "textTransform" "uppercase"
                ∷ word "color" color.gold_label
                ∷ px "fontWeight" 400
                ∷ css "margin" "0 0 20px"
                ∷ [])
              ∷ [])
            (lit "Certificate proof · all classifications · A4 794×1123" ∷ [])
          ∷ el "div"
              (styled (
                  css "display" "flex"
                  ∷ px "gap" 32
                  ∷ css "alignItems" "flex-start"
                  ∷ css "overflowX" "auto"
                  ∷ [])
                ∷ [])
              (figures cos sin 0 all_rarities)
          ∷ [])

  -- `Proof`, for the record of the query, if it has one.
  unfoldable pub proof_page : (cos sin : Number → Number) → Option PourRecord → Node H
  proof_page cos sin (some single) =
      el "div" (a "data-proof-sheet" "single" ∷ []) (certificate cos sin true single ∷ [])
  proof_page cos sin none = proof_of_all cos sin
