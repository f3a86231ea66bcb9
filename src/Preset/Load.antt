-- ===== src/Preset/Load.antt =====
-- The files of presets that src/service/ConfigLoader.ts loads.
use symbol_bootstrap.Base.{
  String, Bool, true, false, Option, none, some, List, [], ◌∷◌, ◌++◌, if◌then◌else◌,
}
use symbol_bootstrap.Base.Text.{Text, text}
use symbol_bootstrap.Base.Result.{Result, returned, raised, error, known_error, ◌>>=◌}
use symbol_bootstrap.Account.{truthy}
use symbol_bootstrap.Value.{Fields, no_fields}
use symbol_bootstrap.Yaml.{is_yml_file}

-- The files, by their paths: which exist, and what `YamlUtils.loadYaml` gives with the password and
-- without one; `join` below the root folder, and the path of a file in the working directory.
pub record PresetFiles : Type 0 where
  pub exists : Text → Bool
  pub load_with_password : Text → Result Fields
  pub load_plain : Text → Result Fields
  pub join_root : List Text → Text
  pub resolve_working_dir_path : Text → Text

module _ (files : PresetFiles) where
  open files use {exists, load_with_password, load_plain, join_root, resolve_working_dir_path}

  unfoldable pub load_custom_preset : Option Text → Result Fields
  load_custom_preset custom_preset = elim (truthy custom_preset) [
    | none ↦ returned no_fields
    | some path ↦
        if exists path
        then load_with_password path
        else raised (known_error "Custom preset doesn't exist.")
  ]

  unfoldable pub load_bundled_preset : Text → Text → String → Result Fields
  load_bundled_preset preset_file location message =
      if is_yml_file preset_file
      then if exists (resolve_working_dir_path preset_file)
        then load_plain (resolve_working_dir_path preset_file)
        else raised (known_error message)
      else if exists location
      then load_plain location
      else raised (known_error message)

  unfoldable pub load_assembly : Text → Result Fields
  load_assembly assembly =
      load_bundled_preset assembly
        (join_root
          (text "presets" ∷ text "assemblies" ∷ (text "assembly-" ++ assembly ++ text ".yml") ∷ []))
        "Assembly is not valid for preset."

  unfoldable pub load_network_preset : Text → Result Fields
  load_network_preset preset =
      load_bundled_preset preset (join_root (text "presets" ∷ preset ∷ text "network.yml" ∷ []))
        "Preset does not exist."

  abbrev pub load_shared_preset : Result Fields
  load_shared_preset = load_plain (join_root (text "presets" ∷ text "shared.yml" ∷ []))

  -- Whether the file is there, and what it holds.
  abbrev load_if_exists : Bool → Result Fields → Result (Option Fields)
  load_if_exists false load = returned none
  load_if_exists true load = load >>= λ preset. returned (some preset)

  -- `loadExistingPresetDataIfPreset`; `location` is preset.yml of the target folder.
  unfoldable pub load_existing_preset_data_if_preset : Text → Result (Option Fields)
  load_existing_preset_data_if_preset location =
      load_if_exists (exists location) (load_with_password location)

  abbrev existing : Option Fields → Result Fields
  existing none = raised (error "The file doesn't exist. Have you executed the 'config' command?")
  existing (some preset) = returned preset

  unfoldable pub load_existing_preset_data : Text → Result Fields
  load_existing_preset_data location = do
    preset ← load_existing_preset_data_if_preset location
    existing preset
