-- ===== src/Markup/Read.antt =====
-- What is read off markup: its declarations, its text, its handlers and its layout.
use moltenpour.Prelude.{List, [], ◌∷◌, ◌++◌, map, Bool, true, false, ◌&&◌, ◌||◌, if◌then◌else◌}
use moltenpour.Text.{Text, codes}
use moltenpour.Api.{text_eq}
use moltenpour.Markup.Defs.{
  CssValue, Declaration, Attr, style, attr, count, flag, optional, on, Node, Nodes, text, element,
  no_nodes, node,
}

unfoldable pub all_declarations : (Declaration → Bool) → List Declaration → Bool
all_declarations p [] = true
all_declarations p (d ∷ ds) = p d && all_declarations p ds

unfoldable pub one_of : Text → List Text → Bool
one_of t [] = false
one_of t (s ∷ ss) = text_eq t s || one_of t ss

module _ {H : Type 0} where
  unfoldable pub declared_here : (Declaration → Bool) → List (Attr H) → Bool
  declared_here p [] = true
  declared_here p (style ds ∷ rest) = all_declarations p ds && declared_here p rest
  declared_here p (_ ∷ rest) = declared_here p rest

  -- Whether every declaration of every style satisfies p.
  unfoldable mutual
    pub declared : (Declaration → Bool) → Node H → Bool
    declared p (text t) = true
    declared p (element tag attrs ns) = declared_here p attrs && declared_nodes p ns

    pub declared_nodes : (Declaration → Bool) → Nodes H → Bool
    declared_nodes p no_nodes = true
    declared_nodes p (node n ns) = declared p n && declared_nodes p ns

  -- `aria-hidden="true"`.
  unfoldable pub hidden : List (Attr H) → Bool
  hidden [] = false
  hidden (attr name value ∷ rest) =
      text_eq name (codes "aria-hidden") && text_eq value (codes "true") || hidden rest
  hidden (_ ∷ rest) = hidden rest

  -- What a screen reader is given, in order: the texts outside hidden elements.
  unfoldable mutual
    pub spoken : Node H → List Text
    spoken (text t) = t ∷ []
    spoken (element tag attrs ns) = if hidden attrs then [] else spoken_nodes ns

    pub spoken_nodes : Nodes H → List Text
    spoken_nodes no_nodes = []
    spoken_nodes (node n ns) = spoken n ++ spoken_nodes ns

  -- The spoken texts inside the elements with a tag.
  unfoldable mutual
    pub spoken_in : Text → Node H → List Text
    spoken_in tag (text t) = []
    spoken_in tag (element other attrs ns) =
        if hidden attrs
        then []
        else if text_eq tag other
        then spoken_nodes ns
        else spoken_in_nodes tag ns

    pub spoken_in_nodes : Text → Nodes H → List Text
    spoken_in_nodes tag no_nodes = []
    spoken_in_nodes tag (node n ns) = spoken_in tag n ++ spoken_in_nodes tag ns

  unfoldable pub handlers_here : List (Attr H) → List H
  handlers_here [] = []
  handlers_here (on name h ∷ rest) = h ∷ handlers_here rest
  handlers_here (_ ∷ rest) = handlers_here rest

  -- `disabled`.
  unfoldable pub disabled : List (Attr H) → Bool
  disabled [] = false
  disabled (flag name b ∷ rest) = text_eq name (codes "disabled") && b || disabled rest
  disabled (_ ∷ rest) = disabled rest

  -- The handlers that can run, in the order of the document: a disabled element gets no events.
  unfoldable mutual
    pub live : Node H → List H
    live (text t) = []
    live (element tag attrs ns) =
        if disabled attrs then [] else handlers_here attrs ++ live_nodes ns

    pub live_nodes : Nodes H → List H
    live_nodes no_nodes = []
    live_nodes (node n ns) = live n ++ live_nodes ns

-- The properties and attributes that only color what is drawn.
abbrev pub inks : List Text
inks = codes "color" ∷ codes "fill" ∷ codes "stroke" ∷ codes "stopColor" ∷ []

unfoldable pub blank_declaration : Declaration → Declaration
blank_declaration d = if one_of d.property inks then record d { value = CssValue.raw [] } else d

module _ {H : Type 0} where
  unfoldable pub blank_attr : Attr H → Attr H
  blank_attr (style ds) = style (map blank_declaration ds)
  blank_attr (attr name value) = attr name (if one_of name inks then [] else value)
  blank_attr (count name n) = count name n
  blank_attr (flag name b) = flag name b
  blank_attr (optional name value) = optional name value
  blank_attr (on name h) = on name h

  -- The layout alone: no text, no ink.
  unfoldable mutual
    pub layout : Node H → Node H
    layout (text t) = text []
    layout (element tag attrs ns) = element tag (map blank_attr attrs) (layout_nodes ns)

    pub layout_nodes : Nodes H → Nodes H
    layout_nodes no_nodes = no_nodes
    layout_nodes (node n ns) = node (layout n) (layout_nodes ns)
