-- ===== src/Api/Json.antt =====
-- A parsed answer: an `unknown` value that came out of `JSON.parse`.
use moltenpour.Prelude.{Option, none, some, Bool, if◌then◌else◌}
use moltenpour.Number.{Number}
use moltenpour.Text.{Text}
use moltenpour.Api.TextEq.{text_eq}

mutual
  pub data Json : Type 0 where
    null : Json
    bool : Bool → Json
    num : Number → Json
    str : Text → Json
    arr : Items → Json
    obj : Fields → Json

  pub data Items : Type 0 where
    nil : Items
    cons : Json → Items → Items

  pub data Fields : Type 0 where
    end : Fields
    field : Text → Json → Fields → Fields

-- `x[name]` on an object; `none` is undefined. The names of an object are distinct.
unfoldable pub property : Text → Fields → Option Json
property name end = none
property name (field n v fs) = if text_eq n name then some v else property name fs
