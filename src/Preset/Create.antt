-- ===== src/Preset/Create.antt =====
-- `createPresetData` of src/service/ConfigLoader.ts: the preset of a network out of the shared preset,
-- the preset of the network, the assembly and the user's own preset.
--
-- Of a preset, `preset` and `assembly` are strings or missing, and its nodes are objects.
pub mod Expanded
use symbol_bootstrap.Base.{
  ℕ, String, Bool, true, false, not, Option, none, some, List, [], ◌∷◌, ◌++◌, find?, or_first,
  if◌then◌else◌,
}
use symbol_bootstrap.Base.Text.{Text, text, text_eq, is_empty}
use symbol_bootstrap.Base.Result.{Result, returned, raised, error, known_error, guard, ◌>>=◌, ◌>>◌}
use symbol_bootstrap.Account.{truthy}
use symbol_bootstrap.Value.{
  Value, undefined, null, num, str, arr, obj, Fields, field, no_fields, Items, element, no_items,
}
use symbol_bootstrap.Preset.{lookup, set_field, is_truthy, dynamic_default_node_configuration}
use symbol_bootstrap.Preset.Load.{
  PresetFiles, load_custom_preset, load_shared_preset, load_network_preset, load_assembly,
}
use symbol_bootstrap.Preset.Expand.{apply_value_template, expand_services_repeat}

-- `_.merge({}, ...presets)`, the template engine, and the length of lodash's range.
pub record PresetTools : Type 0 where
  pub merge : List Fields → Fields
  pub run_template : Text → Fields → Result Text
  pub range_length : Value → ℕ

pub record CreatePresetParams : Type 0 where
  pub preset : Option Text
  pub assembly : Option Text
  pub custom_preset : Option Text
  pub custom_preset_object : Option Fields
  pub old_preset_data : Option Fields

-- `_.isEmpty`
abbrev pub is_empty_value : Option Value → Bool
is_empty_value none = true
is_empty_value (some (obj (field n v fs))) = false
is_empty_value (some (arr (element v vs))) = false
is_empty_value (some (str t)) = is_empty t
is_empty_value (some _) = true

-- The last preset whose field is not empty gives the field.
unfoldable pub last_field : Text → List Fields → Option Value
last_field name [] = none
last_field name (p ∷ presets) =
    or_first (last_field name presets)
      (if is_empty_value (lookup name p) then none else lookup name p)

abbrev set_found : Text → Option Value → Fields → Fields
set_found name none merged = merged
set_found name (some v) merged = set_field name v merged

-- `mergePresets`, of the presets that are not undefined.
unfoldable pub merge_presets : (List Fields → Fields) → List Fields → Fields
merge_presets merge presets =
    set_found (text "knownPeers") (last_field (text "knownPeers") presets) (
      set_found (text "knownRestGateways") (last_field (text "knownRestGateways") presets)
        (set_found (text "inflation") (last_field (text "inflation") presets) (merge presets)))

-- `o?.[name]` of a field that is a string or missing, and what `||` makes of it.
abbrev string_of : Option Value → Option Text
string_of (some (str t)) = truthy (some t)
string_of _ = none

abbrev pub string_field : Text → Option Fields → Option Text
string_field name none = none
string_field name (some o) = string_of (lookup name o)

-- A string that is given, or a field of the given preset object, of the custom preset file or of the
-- old preset.
abbrev pub resolved_string : CreatePresetParams → Fields → Text → Option Text → Option Text
resolved_string params file name given = or_first (truthy given) (
    or_first (string_field name params.custom_preset_object)
      (or_first (string_field name (some file)) (string_field name params.old_preset_data)))

-- `defaultAssembly[preset]`
abbrev pub default_assembly : Text → Option Text
default_assembly preset =
    if text_eq preset (text "bootstrap") then some (text "multinode") else none

abbrev pub required : Option Text → String → Result Text
required none message = raised (known_error message)
required (some t) message = returned t

-- The services of a preset; a field that is missing or falsy has none.
abbrev pub services_of : Option Value → Items
services_of (some (arr vs)) = vs
services_of _ = no_items

unfoldable pub objects_of : Items → List Fields
objects_of no_items = []
objects_of (element (obj fs) vs) = fs ∷ objects_of vs
objects_of (element _ vs) = objects_of vs

unfoldable pub items_of : List Fields → Items
items_of [] = no_items
items_of (fs ∷ nodes) = element (obj fs) (items_of nodes)

abbrev fields_or_empty : Option Fields → Fields
fields_or_empty none = no_fields
fields_or_empty (some fs) = fs

abbrev pub optional : Option Fields → List Fields
optional none = []
optional (some fs) = fs ∷ []

abbrev has_fields : Fields → Bool
has_fields no_fields = false
has_fields (field n v fs) = true

abbrev object_of : Option Value → Fields
object_of (some (obj fs)) = fs
object_of _ = no_fields

-- `oldPresetData?.customPresetCache || {}`
abbrev pub cached : Option Fields → Fields
cached none = no_fields
cached (some old) = object_of (lookup (text "customPresetCache") old)

abbrev or_undefined : Option Value → Value
or_undefined none = undefined
or_undefined (some v) = v

module _ (tools : PresetTools) where
  open tools use {merge, run_template, range_length}

  -- The services of a field of the preset, expanded and set in the result.
  abbrev pub expand_field : Text → Fields → Fields → Result Fields
  expand_field name preset merged = do
    vs ← expand_services_repeat run_template range_length (services_of (lookup name preset)) preset
    returned (set_field name (arr vs) merged)

  -- `expandRepeat`
  unfoldable pub expand_repeat : Fields → Result Fields
  expand_repeat preset = do
    databases ← expand_field (text "databases") preset preset
    nodes ← expand_field (text "nodes") preset databases
    gateways ← expand_field (text "gateways") preset nodes
    proxies ← expand_field (text "httpsProxies") preset gateways
    explorers ← expand_field (text "explorers") preset proxies
    faucets ← expand_field (text "faucets") preset explorers
    nemesis ←
        apply_value_template run_template range_length
          (or_undefined (lookup (text "nemesis") preset)) preset
    returned (set_field (text "nemesis") nemesis faucets)

  -- `presetDataWithDynamicDefaults`
  abbrev pub with_dynamic_defaults : Text → Text → Fields → Fields → Fields
  with_dynamic_defaults preset assembly custom merged =
      let nodes = objects_of (services_of (lookup (text "nodes") merged)) in
      set_field (text "customPresetCache") (obj custom) (
        set_field (text "nodes") (arr (items_of (dynamic_default_node_configuration (some nodes))))
          (set_field (text "assembly") (str assembly)
            (set_field (text "preset") (str preset) (set_field (text "version") (num 1) merged))))

  -- `resolvedCustomPreset`
  abbrev pub resolved_custom_preset : CreatePresetParams → Fields → Fields
  resolved_custom_preset params file =
      let provided = merge_presets merge (file ∷ optional params.custom_preset_object) in
      if has_fields provided then provided else cached params.old_preset_data

  abbrev pub check_network_type : Fields → Result (Unit {0})
  check_network_type merged =
      guard (is_truthy (lookup (text "networkType") merged))
        (error "Network Type could not be resolved.")

  unfoldable pub create_preset_data : PresetFiles → CreatePresetParams → Result Fields
  create_preset_data files params = do
    file ← load_custom_preset files params.custom_preset
    preset ←
        required (resolved_string params file (text "preset") params.preset)
          "Preset value could not be resolved from target folder contents."
    shared ← load_shared_preset files
    network ← load_network_preset files preset
    assembly ←
        required
          (or_first (resolved_string params file (text "assembly") params.assembly)
            (default_assembly preset))
          "Preset requires assembly."
    of_assembly ← load_assembly files assembly
    let custom = resolved_custom_preset params file
    let merged = merge_presets merge (shared ∷ network ∷ of_assembly ∷ custom ∷ [])
    check_network_type merged
    expand_repeat (with_dynamic_defaults preset assembly custom merged)
