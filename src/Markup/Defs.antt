-- ===== src/Markup/Defs.antt =====
-- React's elements, as the components of app/ return them. A handler is a value of `H`, which says
-- what it calls; React's `key` and `ref` are not part of what is shown, and an optional attribute is
-- left out where it has no value.
use Prim.Native.String.{String}
use moltenpour.Prelude.{ℕ, List, [], ◌∷◌, Bool, Option}
use moltenpour.Number.{Number, of_ℕ}
use moltenpour.Text.{Text, codes}

-- A value in a style: text, or a number (of pixels, where the property has a length).
pub data CssValue : Type 0 where
  raw : Text → CssValue
  numeric : Number → CssValue

pub record Declaration : Type 0 where
  pub property : Text
  pub value : CssValue

pub data Attr (H : Type 0) : Type 0 where
  style : List Declaration → Attr H
  attr : Text → Text → Attr H
  count : Text → Number → Attr H
  flag : Text → Bool → Attr H
  optional : Text → Option Text → Attr H
  on : Text → H → Attr H

mutual
  pub data Node (H : Type 0) : Type 0 where
    text : Text → Node H
    element : Text → List (Attr H) → Nodes H → Node H

  pub data Nodes (H : Type 0) : Type 0 where
    no_nodes : Nodes H
    node : Node H → Nodes H → Nodes H

abbrev pub word : String → Text → Declaration
word property value = record { property = codes property; value = CssValue.raw value }

abbrev pub css : String → String → Declaration
css property value = word property (codes value)

abbrev pub num : String → Number → Declaration
num property value = record { property = codes property; value = CssValue.numeric value }

abbrev pub px : String → ℕ → Declaration
px property value = num property (of_ℕ value)

module _ {H : Type 0} where
  abbrev pub nodes : List (Node H) → Nodes H
  nodes [] = no_nodes
  nodes (n ∷ ns) = node n (nodes ns)

  abbrev pub el : String → List (Attr H) → List (Node H) → Node H
  el tag attrs children = element (codes tag) attrs (nodes children)

  abbrev pub lit : String → Node H
  lit s = text (codes s)

  abbrev pub styled : List Declaration → Attr H
  styled ds = style ds

  abbrev pub a : String → String → Attr H
  a name value = attr (codes name) (codes value)

  abbrev pub given : String → Text → Attr H
  given name value = attr (codes name) value
