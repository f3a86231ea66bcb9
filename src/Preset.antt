-- ===== src/Preset.antt =====
-- src/service/ConfigLoader.ts. Here: the defaults of the nodes in a preset. A node is the object that the
-- yaml file holds; its keys are names, which an object keeps in the order in which they were set.
pub mod Defaults
pub mod Expand
pub mod Load
pub mod Create
mod Examples
mod Created
use symbol_bootstrap.Base.{
  ℕ, Bool, true, false, not, ◌&&◌, Option, none, some, List, [], ◌∷◌, map, ◌==◌, if◌then◌else◌,
}
use symbol_bootstrap.Base.Text.{Text, text, text_eq, is_empty}
use symbol_bootstrap.Value.{
  Value, undefined, null, bool, num, str, arr, obj, Fields, field, no_fields,
}

-- `o[name]`
unfoldable pub lookup : Text → Fields → Option Value
lookup name no_fields = none
lookup name (field n v fs) = if text_eq n name then some v else lookup name fs

-- `o[name] = v`
unfoldable pub set_field : Text → Value → Fields → Fields
set_field name v no_fields = field name v no_fields
set_field name v (field n w fs) =
    let rest = set_field name v fs in if text_eq n name then field n v fs else field n w rest

-- `{ ...a, ...b }`
unfoldable pub spread_fields : Fields → Fields → Fields
spread_fields a no_fields = a
spread_fields a (field n v fs) = spread_fields (set_field n v a) fs

-- What an `if` makes of a value.
abbrev pub is_truthy : Option Value → Bool
is_truthy none = false
is_truthy (some undefined) = false
is_truthy (some null) = false
is_truthy (some (bool b)) = b
is_truthy (some (num n)) = not (n == 0)
is_truthy (some (str t)) = not (is_empty t)
is_truthy (some (arr vs)) = true
is_truthy (some (obj fs)) = true

-- The two kinds of defaults differ in what only API nodes have, and in `syncsource`.
abbrev pub node_defaults : Bool → Bool → Fields
node_defaults syncsource api = field (text "syncsource") (bool syncsource) (
    field (text "filespooling") (bool api) (
      field (text "partialtransaction") (bool api) (
        field (text "addressextraction") (bool api) (
          field (text "mongo") (bool api) (
            field (text "zeromq") (bool api)
              (field (text "enableAutoSyncCleanup") (bool (not api)) no_fields))))))

unfoldable pub get_default_configuration : Fields → Fields
get_default_configuration node =
    if is_truthy (lookup (text "harvesting") node) && is_truthy (lookup (text "api") node)
    then node_defaults true true
    else if is_truthy (lookup (text "api") node)
    then node_defaults false true
    else node_defaults true false

abbrev pub with_defaults : Fields → Fields
with_defaults node = spread_fields (get_default_configuration node) node

-- `none` is a preset without nodes.
unfoldable pub dynamic_default_node_configuration : Option (List Fields) → List Fields
dynamic_default_node_configuration none = []
dynamic_default_node_configuration (some nodes) = map with_defaults nodes
