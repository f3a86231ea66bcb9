-- ===== src/Compose/Services.antt =====
-- `run` of src/service/ComposeService.ts: the services of the databases, the nodes and their brokers, and
-- the gateways.
--
-- The callbacks of the nodes wait once for the service of the node before they make the one of the
-- broker, so all nodes stand before all brokers.
use symbol_bootstrap.Base.{
  Bool, true, false, not, ◌||◌, Option, none, some, List, [], ◌∷◌, ◌++◌, filter, is_some, or_else,
  or_first, if◌then◌else◌,
}
use symbol_bootstrap.Base.Text.{Text, text}
use symbol_bootstrap.Account.{truthy}
use symbol_bootstrap.Value.{Value, undefined, str, obj, Fields}
use symbol_bootstrap.Preset.{lookup, spread_fields}
use symbol_bootstrap.Compose.Presets.{DatabasePreset, NodePreset, GatewayPreset, ConfigPreset}
use symbol_bootstrap.Compose.{
  DockerServicePreset, fields, strings_value, string_or_undefined, resolve_debug_options, vol,
  one_port, resolve_service,
}

abbrev node_working_directory : Text
node_working_directory = text "/symbol-workdir"

abbrev node_commands_directory : Text
node_commands_directory = text "/symbol-commands"

-- `../${folder}/${name}`
abbrev sibling : Text → Text → Text
sibling folder name = text "../" ++ folder ++ b'/' ∷ name

abbrev is_true : Option Bool → Bool
is_true none = false
is_true (some b) = b

-- The services that are not excluded.
abbrev pub included {ℓ} : {A : Type ℓ} → (A → DockerServicePreset) → List A → List A
included docker presets = filter (λ n. not (docker n).exclude_docker_service) presets

abbrev dependency : Option Text → List Text
dependency none = []
dependency (some name) = name ∷ []

module _ (merge : List Fields → Fields) (user : Option Text) (preset : ConfigPreset) where
  abbrev restart : Value
  restart = str preset.docker_compose_service_restart

  -- `resolveService(docker, { ...entries, ...resolveDebugOptions })`
  abbrev pub service_of : DockerServicePreset → List (Text × Value) → Fields
  service_of docker entries = resolve_service merge docker (
      spread_fields (fields entries)
        (resolve_debug_options preset.docker_compose_debug_mode docker.docker_compose_debug_mode))

  unfoldable pub database_entries : DatabasePreset → List (Text × Value)
  database_entries n =
      (text "user", string_or_undefined user)
      ∷ (
        text "environment",
        obj (
            fields (
              (
                text "MONGO_INITDB_DATABASE",
                str (or_else (truthy n.database_name) preset.database_name),
              )
              ∷ [])),
      )
      ∷ (text "container_name", str n.name)
      ∷ (text "image", str preset.mongo_image)
      ∷ (
        text "command",
        str (
            text "mongod --dbpath=/dbdata --bind_ip="
            ++ n.name
            ++ b' ' ∷ preset.mongo_compose_run_param),
      )
      ∷ (text "stop_signal", str (text "SIGINT"))
      ∷ (text "working_dir", str (text "/docker-entrypoint-initdb.d"))
      ∷ (text "ports", one_port 27017 n.docker.open_port)
      ∷ (
        text "volumes",
        strings_value (
            vol (text "./mongo") (text "/docker-entrypoint-initdb.d") true
            ∷ vol (sibling (text "databases") n.name) (text "/dbdata") false
            ∷ []),
      )
      ∷ []

  abbrev pub database_service : DatabasePreset → Fields
  database_service n = service_of n.docker (database_entries n)

  -- `presetData.dockerComposeDebugMode || …`
  abbrev pub debug_mode : DockerServicePreset → Bool
  debug_mode docker = preset.docker_compose_debug_mode || is_true docker.docker_compose_debug_mode

  abbrev mode_name : Bool → Text
  mode_name b = if b then text "DEBUG" else text "NORMAL"

  abbrev start_command : Text → Text
  start_command rest =
      text "/bin/bash /symbol-commands/start.sh "
      ++ preset.catapult_app_folder
      ++ b' ' ∷ preset.data_directory
      ++ b' ' ∷ rest

  abbrev server_command : NodePreset → Text
  server_command n = start_command (
      text "server broker "
      ++ n.name
      ++ b' ' ∷ mode_name (debug_mode n.docker)
      ++ b' ' ∷ text (if is_some (truthy n.broker_name) then "true" else "false"))

  abbrev broker_command : NodePreset → Text
  broker_command n = start_command (
      text "broker server "
      ++ or_else (truthy n.broker_name) (text "broker")
      ++ b' ' ∷ mode_name (debug_mode n.broker))

  -- If debug is on, the container runs as root.
  abbrev user_unless : Bool → Value
  user_unless b = if b then undefined else string_or_undefined user

  -- The docker part of a service, with another grace period.
  abbrev with_grace_period : Option Text → Option Text → DockerServicePreset → DockerServicePreset
  with_grace_period own shared docker = record {
    ipv4_address = docker.ipv4_address;
    open_port = docker.open_port;
    host = docker.host;
    exclude_docker_service = docker.exclude_docker_service;
    compose = docker.compose;
    docker_compose_debug_mode = docker.docker_compose_debug_mode;
    stop_grace_period = or_first (truthy own) shared;
  }

  unfoldable pub node_entries : NodePreset → List (Text × Value)
  node_entries n =
      (text "user", user_unless (debug_mode n.docker))
      ∷ (text "container_name", str n.name)
      ∷ (text "image", str preset.symbol_server_image)
      ∷ (text "command", str (server_command n))
      ∷ (text "stop_signal", str (text "SIGINT"))
      ∷ (text "working_dir", str node_working_directory)
      ∷ (text "restart", restart)
      ∷ (text "ports", one_port 7900 n.docker.open_port)
      ∷ (
        text "volumes",
        strings_value (
            vol (sibling (text "nodes") n.name) node_working_directory false
            ∷ vol (text "./server") node_commands_directory true
            ∷ []),
      )
      ∷ (
        text "depends_on",
        strings_value (dependency (truthy n.database_host) ++ dependency (truthy n.broker_name)),
      )
      ∷ []

  abbrev pub node_service : NodePreset → Fields
  node_service n =
      service_of (with_grace_period n.node_stop_grace_period preset.node_stop_grace_period n.docker)
        (node_entries n)

  abbrev or_undefined : Option Value → Value
  or_undefined none = undefined
  or_undefined (some v) = v

  -- The image and the volumes are those of the service of the node.
  unfoldable pub broker_entries : NodePreset → Text → List (Text × Value)
  broker_entries n name =
      (text "user", user_unless (debug_mode n.broker))
      ∷ (text "container_name", str name)
      ∷ (text "image", or_undefined (lookup (text "image") (node_service n)))
      ∷ (text "working_dir", str node_working_directory)
      ∷ (text "command", str (broker_command n))
      ∷ (text "ports", one_port 7902 n.broker.open_port)
      ∷ (text "stop_signal", str (text "SIGINT"))
      ∷ (text "restart", restart)
      ∷ (text "volumes", or_undefined (lookup (text "volumes") (node_service n)))
      ∷ (text "depends_on", strings_value (dependency (truthy n.database_host)))
      ∷ []

  abbrev pub broker_service : NodePreset → Text → Fields
  broker_service n name =
      service_of
        (with_grace_period n.broker_stop_grace_period preset.broker_stop_grace_period n.broker)
        (broker_entries n name)

  unfoldable pub broker_services : List NodePreset → List Fields
  broker_services [] = []
  broker_services (n ∷ nodes) = elim (truthy n.broker_name) [
    | none ↦ broker_services nodes
    | some name ↦ broker_service n name ∷ broker_services nodes
  ]

  unfoldable pub gateway_entries : GatewayPreset → List (Text × Value)
  gateway_entries n =
      (text "container_name", str n.name)
      ∷ (text "user", string_or_undefined user)
      ∷ (
        text "environment",
        obj (fields ((text "npm_config_cache", str node_working_directory) ∷ [])),
      )
      ∷ (text "image", str preset.symbol_rest_image)
      ∷ (text "command", str (text "npm start --prefix /app /symbol-workdir/rest.json"))
      ∷ (text "stop_signal", str (text "SIGINT"))
      ∷ (text "working_dir", str node_working_directory)
      ∷ (text "ports", one_port 3000 n.docker.open_port)
      ∷ (text "restart", restart)
      ∷ (
        text "volumes",
        strings_value (vol (sibling (text "gateways") n.name) node_working_directory false ∷ []),
      )
      ∷ (text "depends_on", strings_value (n.database_host ∷ []))
      ∷ []

  abbrev pub gateway_service : GatewayPreset → Fields
  gateway_service n = service_of n.docker (gateway_entries n)
