-- ===== src/Scripts/Measure.antt =====
-- scripts/verify-certificate.ts: what is measured of a rendered sheet. What the browser reports of it
-- comes in as boxes, computed styles and counts.
use moltenpour.Prelude.{
  ℕ, zero, suc, List, [], ◌∷◌, Option, none, some, Bool, true, false, ◌&&◌, ◌||◌, ◌==◌, leb,
  if◌then◌else◌,
}
use moltenpour.Number.{Number, of_ℕ, ◌+ₙ◌, ◌-ₙ◌, ◌<ₙ◌}
use moltenpour.Text.{Text, codes}

pub record Box : Type 0 where
  pub left : Number
  pub right : Number
  pub top : Number
  pub bottom : Number
  pub width : Number
  pub height : Number

-- A child of the content column: its height, and its margins in the computed style.
pub record StackItem : Type 0 where
  pub height : Number
  pub margin_top : Number
  pub margin_bottom : Number

-- An element with a `style` attribute.
pub record StyledElement : Type 0 where
  pub tag : Text
  pub style_text : Text

-- What the browser reports.
pub record Rendered : Type 0 where
  pub sheet : Box
  pub padding_top : Number
  pub padding_bottom : Number
  pub overflow : Text
  pub color_adjust : Text
  pub webkit_color_adjust : Text
  pub background_image : Text
  pub children : List StackItem
  pub office_lines : ℕ
  pub serial_lines : ℕ
  pub serial_text : Text
  pub svg : Box
  pub svg_hidden : Bool
  pub styled_elements : List StyledElement
  pub dl : Option (ℕ × ℕ)
  pub footer_bottom : Number
  pub disclaimer : Box
  pub disclaimer_lines : ℕ
  pub tick : Option Box

pub record Measured : Type 0 where
  pub disclaimer_lines : ℕ
  pub tick_overlap : Bool
  pub tick_gap_x : Option Number
  pub footer_bottom_gap : Number
  pub w : Number
  pub h : Number
  pub stack : Number
  pub color_adjust : Text
  pub background : Text
  pub serial_lines : ℕ
  pub office_lines : ℕ
  pub serial_text : Text
  pub sigil_w : Number
  pub sigil_h : Number
  pub vp_units : List Text
  pub has_dl : Bool
  pub dt_count : ℕ
  pub dd_count : ℕ
  pub sigil_hidden : Bool

-- The `reduce` over the children.
unfoldable pub stack_from : Number → List StackItem → Number
stack_from sum [] = sum
stack_from sum (c ∷ cs) = stack_from (sum +ₙ c.height +ₙ c.margin_top +ₙ c.margin_bottom) cs

unfoldable pub starts_with : Text → Text → Bool
starts_with [] s = true
starts_with (c ∷ p) [] = false
starts_with (c ∷ p) (d ∷ s) = c == d && starts_with p s

unfoldable pub is_digit : ℕ → Bool
is_digit c = leb b'0' c && leb c b'9'

-- `\b` behind a letter: what follows is no letter, digit or underscore.
unfoldable pub ends_word : Text → Bool
ends_word [] = true
ends_word (c ∷ s) =
    if is_digit c || (leb b'a' c && leb c b'z') || (leb b'A' c && leb c b'Z') || c == b'_'
    then false
    else true

-- Whether the text goes on with this unit, as a word.
unfoldable pub unit_at : Text → Text → Bool
unit_at [] s = ends_word s
unit_at (c ∷ u) [] = false
unit_at (c ∷ u) (d ∷ s) = c == d && unit_at u s

unfoldable pub viewport_units : List Text
viewport_units =
    codes "vh"
    ∷ codes "vw"
    ∷ codes "vmin"
    ∷ codes "vmax"
    ∷ codes "dvh"
    ∷ codes "svh"
    ∷ codes "lvh"
    ∷ []

unfoldable pub any_unit : List Text → Text → Bool
any_unit [] s = false
any_unit (u ∷ us) s = unit_at u s || any_unit us s

-- `/\d(vh|vw|vmin|vmax|dvh|svh|lvh)\b/.test(s)`.
unfoldable pub has_viewport_unit : Text → Bool
has_viewport_unit [] = false
has_viewport_unit (c ∷ s) = (is_digit c && any_unit viewport_units s) || has_viewport_unit s

unfoldable pub units_found : List StyledElement → List Text
units_found [] = []
units_found (e ∷ es) =
    if has_viewport_unit e.style_text then e.tag ∷ units_found es else units_found es

-- The rectangles intersect.
unfoldable pub boxes_meet : Box → Box → Bool
boxes_meet a b = a.left <ₙ b.right && b.left <ₙ a.right && a.top <ₙ b.bottom && b.top <ₙ a.bottom

unfoldable pub overlaps : Box → Option Box → Bool
overlaps disclaimer none = false
overlaps disclaimer (some tick) = boxes_meet disclaimer tick

unfoldable pub gap_to : Box → Option Box → Option Number
gap_to disclaimer none = none
gap_to disclaimer (some tick) = some (disclaimer.left -ₙ tick.right)

unfoldable pub is_there {ℓ} : {A : Type ℓ} → Option A → Bool
is_there none = false
is_there (some a) = true

unfoldable pub terms_of : Option (ℕ × ℕ) → ℕ
terms_of none = 0
terms_of (some counts) = counts.0

unfoldable pub values_of : Option (ℕ × ℕ) → ℕ
values_of none = 0
values_of (some counts) = counts.1

-- `a || b` of texts.
unfoldable pub or_text : Text → Text → Text
or_text [] other = other
or_text (c ∷ s) other = c ∷ s

unfoldable pub first_codes : ℕ → Text → Text
first_codes zero s = []
first_codes (suc n) [] = []
first_codes (suc n) (c ∷ s) = c ∷ first_codes n s

-- What is measured in the page.
unfoldable pub measured_of : Rendered → Measured
measured_of r = record {
  disclaimer_lines = r.disclaimer_lines;
  tick_overlap = overlaps r.disclaimer r.tick;
  tick_gap_x = gap_to r.disclaimer r.tick;
  footer_bottom_gap = r.sheet.bottom -ₙ r.footer_bottom;
  w = r.sheet.width;
  h = r.sheet.height;
  stack = stack_from (of_ℕ 0) r.children +ₙ (r.padding_top +ₙ r.padding_bottom);
  color_adjust = or_text r.color_adjust r.webkit_color_adjust;
  background = first_codes 40 r.background_image;
  serial_lines = r.serial_lines;
  office_lines = r.office_lines;
  serial_text = r.serial_text;
  sigil_w = r.svg.width;
  sigil_h = r.svg.height;
  vp_units = units_found r.styled_elements;
  has_dl = is_there r.dl;
  dt_count = terms_of r.dl;
  dd_count = values_of r.dl;
  sigil_hidden = r.svg_hidden;
}
