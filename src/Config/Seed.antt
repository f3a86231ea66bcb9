-- ===== src/Config/Seed.antt =====
-- The seed of the nemesis block: `resolveNemesis` and `copyNemesis` of src/service/ConfigService.ts,
-- `shouldCreateNemesis` of src/service/ConfigurationUtils.ts, and `validateSeedFolder` of
-- src/service/FileSystemService.ts.
--
-- A seed folder is known by its two files. The state is the seeds of the network and of the nodes;
-- what is there besides is the record `SeedMachine`. What nemgen makes of a network is a parameter.
pub mod Valid
use symbol_bootstrap.Base.{
  Bool, not, ◌&&◌, ◌||◌, Option, none, some, List, [], ◌∷◌, is_some, if◌then◌else◌,
}
use symbol_bootstrap.Base.Text.{Text}
use symbol_bootstrap.Base.Result.{Result, returned, raised, error, known_error, ◌>>=◌, ◌>>◌}
use symbol_bootstrap.Account.{truthy}
use symbol_bootstrap.Yaml.{is_yml_file}

-- `seed/00000/00001.dat` and `seed/index.dat` of a folder, where they exist; `none` is no folder.
pub record SeedFolder : Type 0 where
  pub data_file : Option Text
  pub index_file : Option Text

abbrev pub empty_folder : SeedFolder
empty_folder = record { data_file = none; index_file = none }

abbrev required_file : Option Text → Result (Unit {0})
required_file none = raised (known_error "File doesn't exist!")
required_file (some t) = returned tt

abbrev seed_files : Option SeedFolder → Result (Unit {0})
seed_files none = raised (error "folder does not exist")
seed_files (some folder) = required_file folder.data_file >> required_file folder.index_file

-- `validateSeedFolder`
unfoldable pub validate_seed_folder : Option SeedFolder → Result (Unit {0})
validate_seed_folder folder = seed_files folder

-- What is read of the preset.
pub record SeedPreset : Type 0 where
  pub preset : Text
  pub has_nemesis : Bool
  pub nemesis_seed_folder : Option Text

-- The seed folder of a path in the working directory and of a preset of the program; what
-- `generateNemesisConfig` leaves in the new seed folder.
pub record SeedMachine : Type 0 where
  pub seed_at : Text → Option SeedFolder
  pub preset_seed : Text → Option SeedFolder
  pub generated : Result SeedFolder

-- `shouldCreateNemesis`
unfoldable pub should_create_nemesis : SeedMachine → SeedPreset → Bool
should_create_nemesis machine preset =
    preset.has_nemesis
    && not (is_some (truthy preset.nemesis_seed_folder))
    && (is_yml_file preset.preset || not (is_some (machine.preset_seed preset.preset)))

abbrev pub over : Option Text → Option Text → Option Text
over none old = old
over (some t) old = some t

-- `copyDir` of the files of a seed
unfoldable pub copy_seed : SeedFolder → SeedFolder → SeedFolder
copy_seed from to = record {
  data_file = over from.data_file to.data_file;
  index_file = over from.index_file to.index_file;
}

-- The seed folder of the network after `mkdir`.
abbrev pub made : Option SeedFolder → SeedFolder
made none = empty_folder
made (some folder) = folder

-- A seed that is copied into the new folder, which is then validated.
abbrev copied : Option SeedFolder → Result SeedFolder
copied none = raised (error "ENOENT")
copied (some from) = do
  let folder = copy_seed from empty_folder
  validate_seed_folder (some folder)
  returned folder

abbrev of_preset : SeedMachine → SeedPreset → Result SeedFolder
of_preset machine preset =
    if is_yml_file preset.preset
    then raised
        (known_error "Seed for preset could not be found. Please provide 'nemesisSeedFolder'!")
    else if is_some (machine.preset_seed preset.preset)
    then copied (machine.preset_seed preset.preset)
    else raised (error "Seed could not be found!!!!")

abbrev generated_seed : SeedMachine → Result SeedFolder
generated_seed machine = do
  folder ← machine.generated
  validate_seed_folder (some folder)
  returned folder

abbrev custom_seed : Option SeedFolder → Result SeedFolder
custom_seed folder = validate_seed_folder folder >> copied folder

abbrev provided_seed : SeedMachine → SeedPreset → Option Text → Result SeedFolder
provided_seed machine preset (some folder) = custom_seed (machine.seed_at folder)
provided_seed machine preset none = of_preset machine preset

-- `resolveNemesis`, by the seed folder that is there: the one that is there afterwards.
unfoldable pub resolve_nemesis :
    SeedMachine → SeedPreset → Bool → Option SeedFolder → Result SeedFolder
resolve_nemesis machine preset is_upgrade old =
    if should_create_nemesis machine preset
    then (if is_upgrade then returned (made old) else generated_seed machine)
    else provided_seed machine preset (truthy preset.nemesis_seed_folder)

-- `copyNemesis`, for the seed folders of the nodes, which `cleanUpConfiguration` has deleted.
unfoldable pub copy_to_nodes : SeedFolder → List Text → List (Text × SeedFolder)
copy_to_nodes seed [] = []
copy_to_nodes seed (node ∷ nodes) = (node, copy_seed seed empty_folder) ∷ copy_to_nodes seed nodes

unfoldable pub copy_nemesis : SeedFolder → List Text → Result (List (Text × SeedFolder))
copy_nemesis seed nodes = do validate_seed_folder (some seed); returned (copy_to_nodes seed nodes)

-- The seeds of the network and of the nodes after `run`, for a network with nodes.
unfoldable pub distribute_seed :
    SeedMachine
    → SeedPreset
    → Bool
    → Option SeedFolder
    → List Text
    → Result (SeedFolder × List (Text × SeedFolder))
distribute_seed machine preset is_upgrade old nodes = do
  seed ← resolve_nemesis machine preset is_upgrade old
  copies ← copy_nemesis seed nodes
  returned (seed, copies)
