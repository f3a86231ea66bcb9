-- ===== src/Compose/File.antt =====
-- `run` of src/service/ComposeService.ts: docker-compose.yml.
--
-- The files are those of Yaml; the other files of the folder docker, which templates make, are not
-- looked at. The folder is given by its path.
pub mod Reused
use symbol_bootstrap.Base.{Bool, Option, none, some, List, [], ◌∷◌, ◌++◌, is_some, if◌then◌else◌}
use symbol_bootstrap.Base.Text.{Text, text, starts_with}
use symbol_bootstrap.Base.Result.{Result, returned, ◌>>=◌}
use symbol_bootstrap.Account.{truthy}
use symbol_bootstrap.Value.{Value, str, arr, obj, element, no_items, Fields, no_fields}
use symbol_bootstrap.Yaml.{Files, no_password, not_given, write_yaml, load_yaml}
use symbol_bootstrap.Preset.{lookup, set_field}
use symbol_bootstrap.Preset.Create.{optional}
use symbol_bootstrap.Compose.{fields}
use symbol_bootstrap.Compose.Presets.{ConfigPreset, Rest}
use symbol_bootstrap.Compose.Web.{compose_services}
use symbol_bootstrap.Compose.Prune.{prune_empty}

-- A key of an object; a container name is a string or missing.
abbrev pub key_text : Option Value → Text
key_text (some (str t)) = t
key_text _ = text "undefined"

abbrev pub name_of : Fields → Text
name_of service = key_text (lookup (text "container_name") service)

-- `_.keyBy(services, 'container_name')`, onto an object
unfoldable pub key_onto : Fields → List Fields → Fields
key_onto o [] = o
key_onto o (s ∷ services) = key_onto (set_field (name_of s) (obj s) o) services

unfoldable pub key_by_name : List Fields → Fields
key_by_name services = key_onto no_fields services

abbrev networks_of : Text → Value
networks_of subnet = obj (
    fields (
      (
        text "default",
        obj (
            fields (
              (
                text "ipam",
                obj (
                    fields (
                      (
                        text "config",
                        arr (element (obj (fields ((text "subnet", str subnet) ∷ []))) no_items),
                      )
                      ∷ [])),
              )
              ∷ [])),
      )
      ∷ []))

abbrev with_subnet : Option Text → Fields → Fields
with_subnet none o = o
with_subnet (some subnet) o = set_field (text "networks") (networks_of subnet) o

-- The object before the merge with that of the preset.
unfoldable pub unmerged_compose : ConfigPreset → List Fields → Fields
unmerged_compose preset services = with_subnet (truthy preset.subnet) (
    fields (
      (text "version", preset.docker_compose_version)
      ∷ (text "services", obj (key_by_name services))
      ∷ []))

unfoldable pub docker_compose :
    (List Fields → Fields) → Option Text → Rest → ConfigPreset → Result Fields
docker_compose merge user rest preset = do
  services ← compose_services merge user rest preset
  returned (prune_empty (merge (unmerged_compose preset services ∷ optional preset.compose)))

-- `deleteFolder`
unfoldable pub delete_folder_files : Text → Files → Files
delete_folder_files folder files path =
    if starts_with path (folder ++ b'/' ∷ []) then none else files path

-- What `run` calls: `dump` and `load` of js-yaml, what YamlUtils would encrypt with, and `_.merge`.
pub record ComposeTools : Type 1 where
  pub Seed : Type 0
  pub seed : Seed
  pub seal : Seed → Text → Text → Text × Seed
  pub unseal : Text → Text → Option Text
  pub dump : Value → Text
  pub load : Text → Result Value
  pub merge : List Fields → Fields

pub record ComposeParams : Type 0 where
  pub target_docker : Text
  pub upgrade : Bool

abbrev pub compose_file : ComposeParams → Text
compose_file params = params.target_docker ++ text "/docker-compose.yml"

abbrev pub before_compose_files : ComposeParams → Files → Files
before_compose_files params files =
    if params.upgrade then delete_folder_files params.target_docker files else files

module _ (tools : ComposeTools) (params : ComposeParams) where
  unfoldable pub reuse : Files → Result (Value × Files)
  reuse files = do
    reused ← load_yaml tools.unseal tools.load files (compose_file params) no_password
    returned (reused, files)

  unfoldable pub create : Option Text → Rest → ConfigPreset → Files → Result (Value × Files)
  create user rest preset files = do
    created ← docker_compose tools.merge user rest preset
    after ←
        write_yaml tools.seal tools.dump tools.seed files (compose_file params) (obj created)
          not_given
    returned (obj created, after)

  abbrev reuse_or_create : Option Text → Rest → ConfigPreset → Files → Result (Value × Files)
  reuse_or_create user rest preset files =
      if is_some (files (compose_file params)) then reuse files else create user rest preset files

  unfoldable pub run_compose : Option Text → Rest → ConfigPreset → Files → Result (Value × Files)
  run_compose user rest preset files =
      reuse_or_create user rest preset (before_compose_files params files)
