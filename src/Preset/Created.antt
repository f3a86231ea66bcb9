-- ===== src/Preset/Created.antt =====
-- The preset of a network with one node that is there twice and a database.
use symbol_bootstrap.Base.{
  ℕ, ◌≡◌, refl, true, Option, none, some, List, [], ◌∷◌, All, if◌then◌else◌,
}
use symbol_bootstrap.Base.Decimal.{decimal, decimal_digits}
use symbol_bootstrap.Base.Text.{
  Text, text, text_eq, ends_with, to_lower_case, starts_with, lower_unit,
}
use symbol_bootstrap.Base.Result.{Result, returned, raised, known_error}
use symbol_bootstrap.Value.{
  Value, num, str, arr, obj, Fields, field, no_fields, Items, element, no_items,
}
use symbol_bootstrap.Yaml.{is_yml_file}
use symbol_bootstrap.Preset.{
  lookup, set_field, spread_fields, get_default_configuration, dynamic_default_node_configuration,
}
use symbol_bootstrap.Preset.Expand.{copies, omit, append_items, expand_services_repeat}
use symbol_bootstrap.Preset.Load.{
  PresetFiles, load_custom_preset, load_bundled_preset, load_assembly, load_network_preset,
}
use symbol_bootstrap.Preset.Create.{
  PresetTools, CreatePresetParams, merge_presets, last_field, objects_of, items_of, expand_repeat,
  create_preset_data,
}
use symbol_bootstrap.Preset.Create.Expanded.{
  IsExpandedAt, service_names, create_preset_data-IsExpanded,
}

-- A template is left as it is, but the index takes the place of a dollar sign.
abbrev shown_index : Option Value → Text
shown_index (some (num n)) = decimal n
shown_index _ = text "?"

abbrev run_template : Text → Fields → Result Text
run_template t context =
    returned (if text_eq t (text "$") then shown_index (lookup (text "$index") context) else t)

abbrev range_length : Value → ℕ
range_length (num n) = n
range_length _ = 0

abbrev node : Fields
node = field (text "repeat") (num 2) (field (text "name") (str (text "$")) no_fields)

abbrev services : Items
services = element (obj node) (element (str (text "plain")) no_items)

abbrev named : Value → Value
named name = obj (field (text "name") name no_fields)

abbrev expanded : Items
expanded =
    element (named (str (text "0")))
      (element (named (str (text "1"))) (element (str (text "plain")) no_items))

two_nodes : expand_services_repeat run_template range_length services no_fields ≡ returned expanded
unfolding expand_services_repeat copies omit append_items lookup set_field spread_fields text_eq
    decimal decimal_digits
two_nodes = refl

-- The presets are spread, which is what merging does to flat ones.
abbrev merge_all : List Fields → Fields
merge_all [] = no_fields
merge_all (p ∷ []) = p
merge_all (p ∷ q ∷ ps) = spread_fields p (merge_all (q ∷ ps))

abbrev tools : PresetTools
tools = record { merge = merge_all; run_template = run_template; range_length = range_length }

abbrev network : Fields
network =
    field (text "networkType") (num 152)
      (field (text "nodes") (arr (element (obj node) no_items)) no_fields)

abbrev is_network : Text → Fields
is_network path = if text_eq path (text "testnet") then network else no_fields

abbrev second : List Text → Text
second (a ∷ b ∷ ts) = b
second _ = []

abbrev files : PresetFiles
files = record {
  exists = λ path. true;
  load_with_password = λ path. returned no_fields;
  load_plain = λ path. returned (is_network path);
  join_root = second;
  resolve_working_dir_path = λ path. path;
}

abbrev params : CreatePresetParams
params = record {
  preset = some (text "testnet");
  assembly = some (text "dual");
  custom_preset = none;
  custom_preset_object = none;
  old_preset_data = none;
}

abbrev no_preset : CreatePresetParams
no_preset = record params { preset = none }

unresolved :
    create_preset_data tools files no_preset
    ≡ raised (known_error "Preset value could not be resolved from target folder contents.")
unfolding create_preset_data load_custom_preset lookup
unresolved = refl

abbrev result_or : Result Fields → Fields
result_or (returned fs) = fs
result_or (raised e) = no_fields

abbrev result : Fields
result = result_or (create_preset_data tools files params)

created : create_preset_data tools files params ≡ returned result
unfolding create_preset_data load_custom_preset load_network_preset load_assembly
    load_bundled_preset is_yml_file ends_with to_lower_case starts_with lower_unit merge_presets
    last_field objects_of items_of expand_repeat dynamic_default_node_configuration
    get_default_configuration expand_services_repeat copies omit append_items lookup set_field
    spread_fields text_eq decimal decimal_digits
created = refl

create_preset_data-IsExpanded_example : All (IsExpandedAt result) (service_names tools)
create_preset_data-IsExpanded_example =
    create_preset_data-IsExpanded tools files params result created
