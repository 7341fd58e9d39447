-- ===== src/Json.antt =====
-- JSON values as `JSON.parse` gives them.
use kiro_reverse_api.Prelude.{Bool, Option, none, some, if◌then◌else◌}
use kiro_reverse_api.Text.{Text, text_eq}

-- A number is told by the text that JavaScript prints for it, with "-0" for negative zero, so two
-- numbers are the same value for `Object.is` exactly when their texts are equal.
mutual
  pub data Json : Type 0 where
    null : Json
    flag : Bool → Json
    num : Text → Json
    str : Text → Json
    arr : Items → Json
    obj : Fields → Json

  pub data Items : Type 0 where
    nil : Items
    cons : Json → Items → Items

  -- The entries of an object, in the order of `Object.keys`.
  pub data Fields : Type 0 where
    end : Fields
    field : Text → Json → Fields → Fields

-- `o[key]`, `none` for undefined
abbrev pub get_field : Text → Fields → Option Json
get_field key end = none
get_field key (field k v fs) = if text_eq k key then some v else get_field key fs
