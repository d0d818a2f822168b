-- ===== src/Design/Tokens.antt =====
-- app/design/tokens.ts: the palette, the grounds, the radii, the faces, and what each rarity is shown with.
use moltenpour.Prelude.{◌++◌}
use moltenpour.Number.{Number, of_ℕ, ratio}
use moltenpour.Text.{Text, codes}
use moltenpour.Rarity.{Rarity}

-- `COLOR`.
pub record Color : Type 0 where
  pub void_plum : Text
  pub plum : Text
  pub void_deep : Text
  pub void : Text
  pub plum_mid : Text
  pub plum_deep : Text
  pub panel : Text
  pub gold_cream : Text
  pub gold_hot : Text
  pub gold_body : Text
  pub gold_label : Text
  pub bronze : Text
  pub gold_faint : Text
  pub spec_white : Text
  pub rule_strong : Text
  pub rule_enabled : Text
  pub rule_active : Text
  pub rule : Text
  pub rule_mid : Text
  pub rule_stage : Text
  pub rule_row : Text
  pub rule_disabled : Text
  pub rule_footer : Text
  pub rule_rail : Text
  pub rule_hair : Text
  pub rule_column : Text
  pub leader : Text
  pub tick : Text
  pub tick_stage : Text
  pub tick_mid : Text
  pub shade : Text
  pub shade_strong : Text
  pub shade_deep : Text

unfoldable pub color : Color
color = record {
  void_plum = codes "#2A1136";
  plum = codes "#1A0E1E";
  void_deep = codes "#120A15";
  void = codes "#0C070F";
  plum_mid = codes "#170D1C";
  plum_deep = codes "#0A060D";
  panel = codes "#160B1A";
  gold_cream = codes "#F7E9C2";
  gold_hot = codes "#F5D67A";
  gold_body = codes "#C9A24A";
  gold_label = codes "#B08A3C";
  bronze = codes "#C9922E";
  gold_faint = codes "#A07E3A";
  spec_white = codes "#FFF6D8";
  rule_strong = codes "rgba(201,146,46,.5)";
  rule_enabled = codes "rgba(201,146,46,.55)";
  rule_active = codes "rgba(201,146,46,.35)";
  rule = codes "rgba(201,146,46,.28)";
  rule_mid = codes "rgba(201,146,46,.24)";
  rule_stage = codes "rgba(201,146,46,.22)";
  rule_row = codes "rgba(201,146,46,.2)";
  rule_disabled = codes "rgba(201,146,46,.18)";
  rule_footer = codes "rgba(201,146,46,.16)";
  rule_rail = codes "rgba(201,146,46,.14)";
  rule_hair = codes "rgba(201,146,46,.1)";
  rule_column = codes "rgba(201,146,46,.055)";
  leader = codes "rgba(201,146,46,.3)";
  tick = codes "rgba(245,214,122,.7)";
  tick_stage = codes "rgba(245,214,122,.6)";
  tick_mid = codes "rgba(245,214,122,.5)";
  shade = codes "rgba(10,6,13,.55)";
  shade_strong = codes "rgba(10,6,13,.9)";
  shade_deep = codes "rgba(10,6,13,.94)";
}

unfoldable pub page_ground : Text
page_ground = codes "radial-gradient(115% 70% at 50% -10%, #2A1136 0%, #1A0E1E 48%, #120A15 100%)"

unfoldable pub app_ground : Text
app_ground = codes "radial-gradient(115% 75% at 50% -12%, #2A1136 0%, #170D1C 46%, #0A060D 100%)"

unfoldable pub column_rule : Text
column_rule =
    codes "repeating-linear-gradient(90deg, "
    ++ color.rule_column
    ++ codes " 0 1px, transparent 1px 96px)"

unfoldable pub leader_rule : Text
leader_rule =
    codes "repeating-linear-gradient(90deg, "
    ++ color.leader
    ++ codes " 0 1px, transparent 1px 5px)"

unfoldable pub card_ground : Text
card_ground = codes "linear-gradient(180deg, rgba(32,16,38,.55), rgba(14,8,18,.55))"

unfoldable pub card_border : Text
card_border = codes "rgba(201,146,46,.16)"

unfoldable pub card_shadow : Text
card_shadow = codes "0 30px 80px -30px rgba(0,0,0,.7)"

unfoldable pub grain_url : Text
grain_url =
    codes
      "url(\"data:image/svg+xml;utf8,<svg xmlns='http://www.w3.org/2000/svg' width='140' height='140'><filter id='n'><feTurbulence type='fractalNoise' baseFrequency='.9' numOctaves='3'/></filter><rect width='140' height='140' filter='url(%23n)'/></svg>\")"

-- `RADIUS`.
pub record Radius : Type 0 where
  pub panel : Number
  pub stage : Number
  pub button : Number
  pub row : Number
  pub tab : Number
  pub well : Number
  pub chip : Number
  pub pill : Number

unfoldable pub radius : Radius
radius = record {
  panel = of_ℕ 14;
  stage = of_ℕ 10;
  button = of_ℕ 10;
  row = of_ℕ 8;
  tab = of_ℕ 8;
  well = of_ℕ 9;
  chip = of_ℕ 5;
  pill = of_ℕ 999;
}

-- `BACKGROUND`.
pub record Background : Type 0 where
  pub intensity : Number
  pub dim_while_pouring : Number
  pub max_alpha : Number
  pub fps : Number
  pub pixel_ratio : Number

unfoldable pub background : Background
background = record {
  intensity = ratio 65 100;
  dim_while_pouring = ratio 45 100;
  max_alpha = ratio 32 100;
  fps = of_ℕ 30;
  pixel_ratio = ratio 5 10;
}

-- `FONT`.
pub record Font : Type 0 where
  pub display : Text
  pub instrument : Text

unfoldable pub font : Font
font = record {
  display = codes "'Bodoni Moda', serif";
  instrument = codes "ui-monospace, 'SF Mono', Menlo, monospace";
}

unfoldable pub instrument_min_px : Number
instrument_min_px = of_ℕ 12

pub record Presentation : Type 0 where
  pub accent : Text
  pub secondary : Text
  pub substance : Text

-- `RARITY_PRESENTATION`, read at one of its keys.
unfoldable pub rarity_presentation : Rarity → Presentation
rarity_presentation Rarity.common = record {
  accent = codes "#D8BC7E";
  secondary = codes "#B08A3E";
  substance = codes "Brass";
}
rarity_presentation Rarity.uncommon = record {
  accent = codes "#F5D67A";
  secondary = codes "#C9922E";
  substance = codes "Gold";
}
rarity_presentation Rarity.rare = record {
  accent = codes "#FFF6D8";
  secondary = codes "#E8C260";
  substance = codes "Alloy";
}
rarity_presentation Rarity.singular = record {
  accent = codes "#E8BCF2";
  secondary = codes "#C97AD8";
  substance = codes "Living Metal";
}
