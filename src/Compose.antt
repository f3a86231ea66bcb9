-- ===== src/Compose.antt =====
-- src/service/ComposeService.ts: the services of docker-compose.yml. Here: the presets of the services,
-- and what every service goes through.
--
-- A service is the object that is written; `_.merge` of lodash is the parameter `merge`.
pub mod Presets
pub mod Services
pub mod Web
pub mod Prune
pub mod File
pub mod Names
pub mod Containers
pub mod Untouched
pub mod Listed
pub mod Https
pub mod Ports
mod Sample
mod Examples
use symbol_bootstrap.Base.{
  ℕ, Bool, true, false, not, ◌||◌, Option, none, some, List, [], ◌∷◌, ◌++◌, map, filter, is_some,
  ◌==◌, if◌then◌else◌,
}
use symbol_bootstrap.Base.Text.{Text, text, text_eq, is_empty}
use symbol_bootstrap.Base.Decimal.{decimal}
use symbol_bootstrap.Account.{truthy}
use symbol_bootstrap.Value.{
  Value, undefined, bool, str, arr, obj, Items, element, no_items, Fields, field, no_fields,
}
use symbol_bootstrap.Preset.{set_field}
use symbol_bootstrap.Preset.Create.{optional}

-- `number | undefined | boolean | string`
pub data OpenPort : Type 0 where
  no_port : OpenPort
  port_flag : Bool → OpenPort
  port_number : ℕ → OpenPort
  port_text : Text → OpenPort

pub record PortConfiguration : Type 0 where
  pub internal_port : ℕ
  pub open_port : OpenPort

pub record DockerServicePreset : Type 0 where
  pub ipv4_address : Option Text
  pub open_port : OpenPort
  pub host : Option Text
  pub exclude_docker_service : Bool
  pub compose : Option Fields
  pub docker_compose_debug_mode : Option Bool
  pub stop_grace_period : Option Text

-- An object literal.
unfoldable pub fields : List (Text × Value) → Fields
fields [] = no_fields
fields ((name, v) ∷ entries) = field name v (fields entries)

unfoldable pub strings : List Text → Items
strings [] = no_items
strings (t ∷ ts) = element (str t) (strings ts)

abbrev pub strings_value : List Text → Value
strings_value ts = arr (strings ts)

abbrev pub string_or_undefined : Option Text → Value
string_or_undefined none = undefined
string_or_undefined (some t) = str t

-- `DEBUG_SERVICE_PARAMS`
abbrev debug_service_params : Fields
debug_service_params =
    field (text "security_opt") (strings_value (text "seccomp:unconfined" ∷ [])) (
      field (text "cap_add") (strings_value (text "ALL" ∷ []))
        (field (text "privileged") (bool true) no_fields))

abbrev debug_options : Bool → Fields
debug_options b = if b then debug_service_params else no_fields

-- `resolveDebugOptions`
unfoldable pub resolve_debug_options : Bool → Option Bool → Fields
resolve_debug_options docker_compose_debug_mode (some false) = no_fields
resolve_debug_options docker_compose_debug_mode (some true) = debug_options true
resolve_debug_options docker_compose_debug_mode none = debug_options docker_compose_debug_mode

abbrev pub mode_text : Bool → Text
mode_text read_only = text (if read_only then "ro" else "rw")

-- `vol`
unfoldable pub vol : Text → Text → Bool → Text
vol host_folder image_folder read_only =
    host_folder ++ b':' ∷ image_folder ++ b':' ∷ mode_text read_only

-- `!!c.openPort`
abbrev pub is_open : OpenPort → Bool
is_open no_port = false
is_open (port_flag b) = b
is_open (port_number n) = not (n == 0)
is_open (port_text t) = not (is_empty t)

abbrev shown_flag : Bool → Text
shown_flag b = if b then text "true" else text "false"

-- The port of the host.
unfoldable pub host_port : PortConfiguration → Text
host_port c = elim c.open_port [
  | no_port ↦ text "undefined"
  | port_flag b ↦ if b then decimal c.internal_port else shown_flag b
  | port_number n ↦ decimal n
  | port_text t ↦ if text_eq t (text "true") then decimal c.internal_port else t
]

abbrev pub port_bind : PortConfiguration → Text
port_bind c = host_port c ++ b':' ∷ decimal c.internal_port

-- `resolvePorts`
unfoldable pub resolve_ports : List PortConfiguration → List Text
resolve_ports configurations = map port_bind (filter (λ c. is_open c.open_port) configurations)

abbrev pub one_port : ℕ → OpenPort → Value
one_port internal port =
    strings_value (resolve_ports (record { internal_port = internal; open_port = port } ∷ []))

abbrev pub set_string : Text → Option Text → Fields → Fields
set_string name none o = o
set_string name (some t) o = set_field name (str t) o

abbrev with_aliases : Option Text → Fields → Fields
with_aliases none o = o
with_aliases (some host) o = set_field (text "aliases") (strings_value (host ∷ [])) o

-- The object `networks.default`.
abbrev pub default_network : DockerServicePreset → Fields
default_network preset =
    set_string (text "ipv4_address") (truthy preset.ipv4_address)
      (with_aliases (truthy preset.host) no_fields)

abbrev pub with_networks : DockerServicePreset → Fields → Fields
with_networks preset service =
    if is_some (truthy preset.host) || is_some (truthy preset.ipv4_address)
    then set_field (text "networks")
        (obj (field (text "default") (obj (default_network preset)) no_fields)) service
    else service

-- `resolveService` before the merge.
unfoldable pub resolved_raw : DockerServicePreset → Fields → Fields
resolved_raw preset raw =
    set_string (text "stop_grace_period") (truthy preset.stop_grace_period)
      (set_string (text "hostname") (truthy preset.host) (with_networks preset raw))

-- `resolveService`
unfoldable pub resolve_service : (List Fields → Fields) → DockerServicePreset → Fields → Fields
resolve_service merge preset raw = merge (resolved_raw preset raw ∷ optional preset.compose)
