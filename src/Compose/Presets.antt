-- ===== src/Compose/Presets.antt =====
-- src/model/ConfigPreset.ts: what `run` of src/service/ComposeService.ts reads of the presets. `Rest` is
-- what the faucets are told of the network: the default node that `resolveRestUrlsForServices` ended
-- with (Remote/Service), and the private key of the main account in the addresses.
use symbol_bootstrap.Base.{ℕ, Bool, Option, List}
use symbol_bootstrap.Base.Text.{Text}
use symbol_bootstrap.Base.Result.{Result}
use symbol_bootstrap.Value.{Value, Fields}
use symbol_bootstrap.Compose.{DockerServicePreset}

pub record DatabasePreset : Type 0 where
  pub name : Text
  pub database_name : Option Text
  pub docker : DockerServicePreset

pub record NodePreset : Type 0 where
  pub name : Text
  pub database_host : Option Text
  pub node_stop_grace_period : Option Text
  pub docker : DockerServicePreset
  pub broker_name : Option Text
  pub broker_stop_grace_period : Option Text
  pub broker : DockerServicePreset

pub record GatewayPreset : Type 0 where
  pub name : Text
  pub database_host : Text
  pub docker : DockerServicePreset

-- The name of an https proxy, which the type leaves optional, is given.
pub record HttpsProxyPreset : Type 0 where
  pub name : Text
  pub domains : Option Text
  pub stage : Text
  pub web_socket : Option Text
  pub server_names_hash_bucket_size : Option ℕ
  pub docker : DockerServicePreset

pub record ExplorerPreset : Type 0 where
  pub name : Text
  pub docker : DockerServicePreset

pub record FaucetPreset : Type 0 where
  pub name : Text
  pub gateway : Text
  pub docker : DockerServicePreset

-- What `run` reads of the preset; lists that are not there are empty.
pub record ConfigPreset : Type 0 where
  pub databases : List DatabasePreset
  pub nodes : List NodePreset
  pub gateways : List GatewayPreset
  pub https_proxies : List HttpsProxyPreset
  pub explorers : List ExplorerPreset
  pub faucets : List FaucetPreset
  pub mosaic_names : List Text
  pub database_name : Text
  pub mongo_image : Text
  pub mongo_compose_run_param : Text
  pub symbol_server_image : Text
  pub symbol_rest_image : Text
  pub symbol_explorer_image : Text
  pub symbol_faucet_image : Text
  pub https_portal_image : Text
  pub catapult_app_folder : Text
  pub data_directory : Text
  pub base_namespace : Text
  pub currency_mosaic_id : Text
  pub docker_compose_version : Value
  pub docker_compose_service_restart : Text
  pub docker_compose_debug_mode : Bool
  pub node_stop_grace_period : Option Text
  pub broker_stop_grace_period : Option Text
  pub subnet : Option Text
  pub compose : Option Fields

-- What is found out for the faucets: the default node, or why there is none; the private keys of the
-- accounts of each mosaic in the addresses that are passed or loaded, if there are addresses.
pub record Rest : Type 0 where
  pub default_node : Result Text
  pub addresses : Result (Option (List (List (Option Text))))
