-- ===== src/Run.antt =====
-- src/service/RunService.ts: how the network is started, checked and stopped.
--
-- docker and the file system are reached by commands, whose log, newest first, is the state; what is
-- there before, and how each command ends, is the record `Machine`. Folders that are looked after at
-- the same time are taken in turn, and those behind one that fails are left out.
pub mod Health
pub mod Volumes
mod Examples
use symbol_bootstrap.Base.{
  ℕ, Bool, true, false, not, ◌&&◌, Option, none, some, List, [], ◌∷◌, ◌++◌, map, if◌then◌else◌,
}
use symbol_bootstrap.Base.Text.{Text, text, starts_with}
use symbol_bootstrap.Base.Strings.{trim, split, uniq_from}
use symbol_bootstrap.Base.Result.{Result, error}
use symbol_bootstrap.Account.{truthy}
use symbol_bootstrap.Action.{Action, done, pure, throw, lift, ◌>>=◌, ◌>>◌}

pub data Command : Type 0 where
  delete_folder make_folder allow_all pull_image : Text → Command
  docker_compose : List Text → Command

abbrev pub Commands : Type 0
Commands = List Command

-- A service of docker-compose.yml.
pub record DockerComposeService : Type 0 where
  pub container_name : Text
  pub image : Option Text
  pub volumes : List Text
  pub ports : List Text

pub record RunParams : Type 0 where
  pub target : Text
  pub detached : Bool
  pub build : Bool
  pub pull_images : Bool
  pub reset_data : Bool
  pub health_check : Bool
  pub timeout : Option ℕ
  pub args : List Text

-- `join` of paths; the services of docker-compose.yml, if the file exists, or the error of reading
-- it; the folders that exist before; whether the user is root; how each command ends; the names of
-- the nodes and the gateways of the preset.
pub record Machine : Type 0 where
  pub join : List Text → Text
  pub compose_file : Option (Result (List DockerComposeService))
  pub folder_exists : Text → Bool
  pub is_root : Bool
  pub outcome : Command → Result (Unit {0})
  pub node_names : List Text
  pub gateway_names : List Text

unfoldable pub issue : Command → Action Commands (Unit {0})
issue c s = done tt (c ∷ s)

-- A command that may fail.
unfoldable pub perform : Machine → Command → Action Commands (Unit {0})
perform machine c = do issue c; lift (machine.outcome c)

module _ {A : Type 0} where
  unfoldable pub each : (A → Action Commands (Unit {0})) → List A → Action Commands (Unit {0})
  each f [] = pure tt
  each f (x ∷ xs) = let rest = each f xs in f x >> rest

abbrev pub only_if : Bool → Action Commands (Unit {0}) → Action Commands (Unit {0})
only_if b m = if b then m else pure tt

abbrev parts_of : ℕ → Text → List Text
parts_of separator s = let (part, parts) = split separator s in part ∷ parts

-- `_.flatMap(args, (s) => s.split(' ').map((internal) => internal.trim()))`
unfoldable pub split_args : List Text → List Text
split_args [] = []
split_args (a ∷ args) = map (λ internal. trim internal) (parts_of b' ' a) ++ split_args args

-- `basicArgs`
unfoldable pub basic_args : RunParams → List Text
basic_args params =
    text "up" ∷ text "--remove-orphans" ∷ []
    ++ (if params.detached then text "--detach" ∷ [] else [])
    ++ (if params.build then text "--build" ∷ [] else [])
    ++ split_args params.args

abbrev pub volume_folder : Text → Text
volume_folder volume = let (part, parts) = split b':' volume in part

-- `portBind.split(':')[0]`
abbrev pub port_of : Text → Text
port_of bind = let (part, parts) = split b':' bind in part

unfoldable pub volume_list : List DockerComposeService → List Text
volume_list [] = []
volume_list (s ∷ services) = map (λ v. volume_folder v) s.volumes ++ volume_list services

unfoldable pub images_of : List DockerComposeService → List Text
images_of [] = []
images_of (s ∷ services) = elim (truthy s.image) [
  | none ↦ images_of services
  | some image ↦ image ∷ images_of services
]

module _ (params : RunParams) (machine : Machine) where
  open machine use {join}

  abbrev docker_file : Text
  docker_file = join (params.target ∷ text "docker" ∷ text "docker-compose.yml" ∷ [])

  abbrev pub volume_path : Text → Text
  volume_path v = join (params.target ∷ text "docker" ∷ v ∷ [])

  -- `pullImages`; `pullImage` catches what the command throws.
  unfoldable pub pull_all : List DockerComposeService → Action Commands (Unit {0})
  pull_all services = each (λ image. issue (pull_image image)) (uniq_from [] (images_of services))

  unfoldable pub prepare_volume : Text → Action Commands (Unit {0})
  prepare_volume v = do
    only_if (not (machine.folder_exists (volume_path v)))
        (perform machine (make_folder (volume_path v)))
    only_if (starts_with v (text "../databases") && machine.is_root)
        (perform machine (allow_all (volume_path v)))

  abbrev pub before_compose :
      Bool → Option (Result (List DockerComposeService)) → Action Commands Bool
  before_compose ignore_if_not_found none =
      if ignore_if_not_found then pure false else throw (error "Docker compose does not exist.")
  before_compose ignore_if_not_found (some loaded) = do
    services ← lift loaded
    only_if (not ignore_if_not_found && params.pull_images) (pull_all services)
    each prepare_volume (volume_list services)
    pure true

  -- `beforeRun`
  unfoldable pub before_run : Bool → Action Commands Bool
  before_run ignore_if_not_found = before_compose ignore_if_not_found machine.compose_file

  -- `basicRun`
  unfoldable pub basic_run : List Text → Action Commands (Unit {0})
  basic_run extra_args = perform machine (docker_compose (text "-f" ∷ docker_file ∷ extra_args))

  unfoldable pub stop : Action Commands (Unit {0})
  stop = do found ← before_run true; only_if found (basic_run (text "stop" ∷ []))

  abbrev node_folder : Text → Text → Text
  node_folder name folder = join (join (params.target ∷ text "nodes" ∷ name ∷ []) ∷ folder ∷ [])

  -- The part of a node in `resetData` before the first `await`.
  abbrev delete_node : Text → Action Commands (Unit {0})
  delete_node name = do
    perform machine (delete_folder (node_folder name (text "data")))
    perform machine (delete_folder (node_folder name (text "logs")))
    perform machine (make_folder (node_folder name (text "data")))

  -- `resetData`
  unfoldable pub reset : Action Commands (Unit {0})
  reset = do
    each (λ name. delete_node name) machine.node_names
    each (λ name. perform machine (make_folder (node_folder name (text "logs")))) machine.node_names
    each
        (λ name.
          perform machine
            (delete_folder (join (params.target ∷ text "gateways" ∷ name ∷ text "logs" ∷ []))))
        machine.gateway_names
    perform machine (delete_folder (join (params.target ∷ text "databases" ∷ [])))

  -- `run`; the health check runs beside docker-compose.
  unfoldable pub run : Result (Unit {0}) → Action Commands (Unit {0})
  run health = do
    only_if params.reset_data reset
    found ← before_run false
    basic_run (basic_args params)
    if params.health_check then lift health else pure tt
