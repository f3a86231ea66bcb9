-- ===== src/Value.antt =====
-- The JavaScript values that the program reads from and writes to yaml files: presets and
-- addresses. An array and an object are lists of their own, in the order of their entries; what is
-- said of a number is said of the whole numbers that occur in these files.
use symbol_bootstrap.Base.{ℕ, Bool}
use symbol_bootstrap.Base.Text.{Text}

mutual
  pub data Fields : Type 0 where
    field : Text → Value → Fields → Fields
    no_fields : Fields

  pub data Items : Type 0 where
    element : Value → Items → Items
    no_items : Items

  pub data Value : Type 0 where
    obj : Fields → Value
    arr : Items → Value
    str : Text → Value
    bool : Bool → Value
    num : ℕ → Value
    undefined null : Value
