-- ===== src/Scripts/Order.antt =====
-- scripts/verify-certificate.ts: a sheet without a problem is in order, and the other way about.
use moltenpour.Prelude.{
  List, [], ◌∷◌, ◌++◌, none, some, Bool, true, false, ◌&&◌, ◌==◌, ==_iff, Bool-cases, inl, inr, ◌≡◌,
  refl, arith,
}
use moltenpour.Number.{of_ℕ, round, ◌<=ₙ◌}
use moltenpour.Text.{Text, codes}
use moltenpour.Api.{text_eq}
use moltenpour.Scripts.Measure.{Measured, is_there}
use moltenpour.Scripts.Verdicts.{
  same_number, includes, unless_holds, size_verdict, stack_verdict, ground_verdicts, line_verdicts,
  sigil_verdict, no_texts, markup_verdicts, tick_verdict, footer_verdict, sheet_problems,
}

-- A sheet that is in order.
pub record IsInOrder (m : Measured) : Type 0 where
  pub width : same_number (round m.w) (of_ℕ 794) ≡ true
  pub height : same_number (round m.h) (of_ℕ 1123) ≡ true
  pub stack : m.stack <=ₙ of_ℕ 1123 ≡ true
  pub adjust : text_eq m.color_adjust (codes "exact") ≡ true
  pub ground : includes (codes "radial-gradient") m.background ≡ true
  pub serial : m.serial_lines ≡ 1
  pub office : m.office_lines ≡ 1
  pub sigil_width : m.sigil_w <=ₙ of_ℕ 300 ≡ true
  pub sigil_height : m.sigil_h <=ₙ of_ℕ 300 ≡ true
  pub no_units : m.vp_units ≡ []
  pub list : m.has_dl ≡ true
  pub terms : m.dt_count ≡ 8
  pub values : m.dd_count ≡ 8
  pub hidden : m.sigil_hidden ≡ true
  pub tick : is_there m.tick_gap_x ≡ true
  pub clear : m.tick_overlap ≡ false
  pub footer : of_ℕ 0 <=ₙ m.footer_bottom_gap ≡ true

module _ {A : Type 0} where
  pub append_empty : (xs ys : List A) → xs ++ ys ≡ [] → (xs ≡ []) × (ys ≡ [])
  append_empty [] ys h = (refl, h)
  append_empty (x ∷ xs) ys h = cc

both : (a b : Bool) → (a && b) ≡ true → (a ≡ true) × (b ≡ true)
both a b h = ground arith

pub unless_holds-empty : (b : Bool) (t : Text) → unless_holds b t ≡ [] → b ≡ true
unfolding unless_holds
unless_holds-empty true t h = refl
unless_holds-empty false t h = cc

no_texts-empty : (ss : List Text) → no_texts ss ≡ true → ss ≡ []
unfolding no_texts
no_texts-empty [] h = refl
no_texts-empty (s ∷ ss) h = cc

pub IsInOrder→sheet_problems : (m : Measured) → IsInOrder m → sheet_problems m ≡ []
unfolding sheet_problems size_verdict stack_verdict ground_verdicts line_verdicts sigil_verdict
    markup_verdicts tick_verdict footer_verdict unless_holds no_texts
IsInOrder→sheet_problems m h = rw (
  h.width, h.height, h.stack, h.adjust, h.ground, h.serial, h.office, h.sigil_width, h.sigil_height,
  h.no_units, h.list, h.terms, h.values, h.hidden, h.tick, h.clear, h.footer,
)

pub no_measured : {P : Type 0} {ms : List Measured} → none ≡ some ms → P
no_measured h = cc

pub some-injective : {ms ns : List Measured} → some ms ≡ some ns → ms ≡ ns
some-injective h = cc

no_cons : {P : Type 0} {x : Text} {xs : List Text} → x ∷ xs ≡ [] → P
no_cons h = cc

tick_verdict-empty :
    (m : Measured) → tick_verdict m ≡ [] → (is_there m.tick_gap_x ≡ true) × (m.tick_overlap ≡ false)
unfolding tick_verdict unless_holds
tick_verdict-empty m h = elim (Bool-cases (is_there m.tick_gap_x)) [
  | inl there ↦ elim (Bool-cases m.tick_overlap) [
    | inl meets ↦ no_cons (rw (there, meets) at h)
    | inr clear ↦ (there, clear)
  ]
  | inr missing ↦ no_cons (rw missing at h)
]

-- Each check comes to nothing.
parts_empty :
    (m : Measured)
    → sheet_problems m ≡ []
    → (size_verdict m ≡ [])
      × (stack_verdict m ≡ [])
      × (ground_verdicts m ≡ [])
      × (line_verdicts m ≡ [])
      × (sigil_verdict m ≡ [])
      × (markup_verdicts m ≡ [])
      × (tick_verdict m ≡ [])
      × (footer_verdict m ≡ [])
unfolding sheet_problems
parts_empty m h =
    let (h7, foot) = append_empty _ (footer_verdict m) h in
    let (h6, ticks) = append_empty _ (tick_verdict m) h7 in
    let (h5, markup) = append_empty _ (markup_verdicts m) h6 in
    let (h4, sigil) = append_empty _ (sigil_verdict m) h5 in
    let (h3, lines) = append_empty _ (line_verdicts m) h4 in
    let (h2, grounds) = append_empty _ (ground_verdicts m) h3 in
    let (size, stack) = append_empty (size_verdict m) (stack_verdict m) h2 in
    (size, stack, grounds, lines, sigil, markup, ticks, foot)

two_empty :
    (a b : Bool) (s t : Text) → unless_holds a s ++ unless_holds b t ≡ [] → (a ≡ true) × (b ≡ true)
two_empty a b s t h =
    let (x, y) = append_empty (unless_holds a s) (unless_holds b t) h in
    (unless_holds-empty a s x, unless_holds-empty b t y)

pair_empty : (a b : Bool) (t : Text) → unless_holds (a && b) t ≡ [] → (a ≡ true) × (b ≡ true)
pair_empty a b t h = both a b (unless_holds-empty (a && b) t h)

size_empty :
    (m : Measured)
    → size_verdict m ≡ []
    → (same_number (round m.w) (of_ℕ 794) ≡ true) × (same_number (round m.h) (of_ℕ 1123) ≡ true)
unfolding size_verdict
size_empty m h =
    pair_empty (same_number (round m.w) (of_ℕ 794)) (same_number (round m.h) (of_ℕ 1123)) _ h

markup_empty :
    (m : Measured)
    → markup_verdicts m ≡ []
    → (m.vp_units ≡ [])
      × (m.has_dl ≡ true)
      × (m.dt_count ≡ 8)
      × (m.dd_count ≡ 8)
      × (m.sigil_hidden ≡ true)
unfolding markup_verdicts
markup_empty m h =
    let (front, hidden) = append_empty _ (unless_holds m.sigil_hidden _) h in
    let (units, ledger) =
      two_empty (no_texts m.vp_units) (m.has_dl && m.dt_count == 8 && m.dd_count == 8) _ _ front in
    let (most, values) = both (m.has_dl && m.dt_count == 8) (m.dd_count == 8) ledger in
    let (list, terms) = both m.has_dl (m.dt_count == 8) most in
    (
      no_texts-empty m.vp_units units,
      list,
      (==_iff m.dt_count 8).0 terms,
      (==_iff m.dd_count 8).0 values,
      unless_holds-empty m.sigil_hidden _ hidden,
    )

lines_empty : (m : Measured) → line_verdicts m ≡ [] → (m.serial_lines ≡ 1) × (m.office_lines ≡ 1)
unfolding line_verdicts
lines_empty m h =
    let (serial, office) = two_empty (m.serial_lines == 1) (m.office_lines == 1) _ _ h in
    ((==_iff m.serial_lines 1).0 serial, (==_iff m.office_lines 1).0 office)

ground_empty :
    (m : Measured)
    → ground_verdicts m ≡ []
    → (text_eq m.color_adjust (codes "exact") ≡ true)
      × (includes (codes "radial-gradient") m.background ≡ true)
unfolding ground_verdicts
ground_empty m h =
    two_empty (text_eq m.color_adjust (codes "exact"))
      (includes (codes "radial-gradient") m.background) _ _ h

sigil_empty :
    (m : Measured)
    → sigil_verdict m ≡ []
    → (m.sigil_w <=ₙ of_ℕ 300 ≡ true) × (m.sigil_h <=ₙ of_ℕ 300 ≡ true)
unfolding sigil_verdict
sigil_empty m h = pair_empty (m.sigil_w <=ₙ of_ℕ 300) (m.sigil_h <=ₙ of_ℕ 300) _ h

pub sheet_problems→IsInOrder : (m : Measured) → sheet_problems m ≡ [] → IsInOrder m
sheet_problems→IsInOrder m h =
    let (size, stack, grounds, lines, sigil, markup, ticks, foot) = parts_empty m h in
    let (width, height) = size_empty m size in
    let (serial, office) = lines_empty m lines in
    let (no_units, list, terms, values, hidden) = markup_empty m markup in
    let (there, clear) = tick_verdict-empty m ticks in
    let (adjust, ground) = ground_empty m grounds in
    let (sigil_width, sigil_height) = sigil_empty m sigil in
    record {
      width = width;
      height = height;
      stack = unfold stack_verdict in unless_holds-empty (m.stack <=ₙ of_ℕ 1123) _ stack;
      adjust = adjust;
      ground = ground;
      serial = serial;
      office = office;
      sigil_width = sigil_width;
      sigil_height = sigil_height;
      no_units = no_units;
      list = list;
      terms = terms;
      values = values;
      hidden = hidden;
      tick = there;
      clear = clear;
      footer = unfold footer_verdict in unless_holds-empty (of_ℕ 0 <=ₙ m.footer_bottom_gap) _ foot;
    }
